-- ===== src/Workers/Remediation/Allowed.antt =====
-- workers/connector_actions.py: a connector is asked only for what it supports.
use dsx_connect.Prelude.{◌≡◌, true, Option, none, some, arith, String}
use dsx_connect.Prelude.Value.{str, get_field, merge, put_field}
use dsx_connect.Jobs.World.{ok, Raised, invalid}
use dsx_connect.Control.Config.{
  RemediationCapabilitiesConfig, supports_action, resolve_remediation_capabilities,
}
use dsx_connect.Workers.Remediation.Request.{
  RemediationRequested, ConnectorRemediationRequest, ItemAction, item_action_text,
  as_connector_remediation_request, as_legacy_action_request,
}
use dsx_connect.Workers.Remediation.Returns.{Returns, Returns-bind, Returns-ok}
use dsx_connect.Workers.Remediation.Connector.{
  Env, Integration, Call, checked, prepare_call, check_capability, find_integration,
  resolve_connector_action_runtime_config, build_auth_headers,
  build_legacy_connector_action_payload,
}

checked-ok : {A : Type 0} (o : Option A) (x : Raised) (a : A) → checked o x ≡ ok a → o ≡ some a
checked-ok none x a h = cc
checked-ok (some b) x a h = cc

capability-ok :
    (env : Env) (request : RemediationRequested) (action : ItemAction) (integration : Integration)
    (capabilities : RemediationCapabilitiesConfig)
    → find_integration env request ≡ ok integration
    → resolve_remediation_capabilities env.values.parser
        (some integration.config)
        integration.capability_remediate
      ≡ some capabilities
    → check_capability env request action ≡ ok tt
    → supports_action capabilities (item_action_text action) ≡ true
unfolding check_capability
capability-ok env request action integration capabilities hi hc h = ground arith

payload-action :
    (env : Env) (request : RemediationRequested) (n : ConnectorRemediationRequest) (url : String)
    → get_field
        (build_legacy_connector_action_payload env request n
          (as_legacy_action_request env.values n)
          url)
        "item_action"
      ≡ str (item_action_text n.action)
unfolding build_legacy_connector_action_payload get_field merge put_field
payload-action env request n url = ground arith

-- What is said of a call that is prepared.
record IsChecked (env : Env) (request : RemediationRequested)
    (r : ConnectorRemediationRequest × Call) : Type 0 where
  is_request : as_connector_remediation_request env.values request ≡ some r.0
  is_supported : check_capability env request r.0.action ≡ ok tt
  is_sent : get_field r.1.payload "item_action" ≡ str (item_action_text r.0.action)

prepared :
    (env : Env) (request : RemediationRequested)
    → Returns (IsChecked env request) (prepare_call env request)
unfolding prepare_call
prepared env request =
    Returns-bind (IsChecked env request) (resolve_connector_action_runtime_config env request) _
      (λ p hp.
        Returns-bind (IsChecked env request)
          (checked (as_connector_remediation_request env.values request) invalid) _
          (λ n hn.
            Returns-bind (IsChecked env request) (check_capability env request n.action) _ (λ u hu.
              Returns-bind (IsChecked env request) (build_auth_headers env p.1 _ _) _ (λ headers hh.
                Returns-ok (IsChecked env request) _ (record {
                  is_request =
                      checked-ok (as_connector_remediation_request env.values request) invalid n hn;
                  is_supported = hu;
                  is_sent = payload-action env request n p.0;
                })))))

-- Every call of a connector that is made ready is for the action that the plan asks for, names this
-- action in its payload, and the connector of the integration supports it.
pub prepared_call_supported :
    (env : Env) (request : RemediationRequested) (normalized : ConnectorRemediationRequest)
    (call : Call) (integration : Integration) (capabilities : RemediationCapabilitiesConfig)
    → prepare_call env request ≡ ok (normalized, call)
    → find_integration env request ≡ ok integration
    → resolve_remediation_capabilities env.values.parser
        (some integration.config)
        integration.capability_remediate
      ≡ some capabilities
    → (as_connector_remediation_request env.values request ≡ some normalized)
      × (get_field call.payload "item_action" ≡ str (item_action_text normalized.action))
      × (supports_action capabilities (item_action_text normalized.action) ≡ true)
prepared_call_supported env request normalized call integration capabilities h hi hc =
    let checks : IsChecked env request (normalized, call) =
      (prepared env request).on_ok (normalized, call) h in
    (
      checks.is_request,
      checks.is_sent,
      capability-ok env request normalized.action integration capabilities hi hc
          checks.is_supported,
    )
