-- ===== src/Workers/Examples/Remediation.antt =====
-- The remediation of one object by a connector that does not answer.
use dsx_connect.Prelude.{◌≡◌, refl, true, false, none, some}
use dsx_connect.Prelude.Value.{no_fields, field, str, get_field, merge}
use dsx_connect.Prelude.Text.{lower_strip, before_last_slash}
use dsx_connect.Jobs.Models.{default_content_source}
use dsx_connect.Jobs.World.{ok}
use dsx_connect.Control.Config.{
  RemediationCapabilitiesConfig, ProxyAuthMode, ProxyReaderConfig, default_policy, supports_action,
  resolve_remediation_capabilities, parse_integration_runtime_config,
}
use dsx_connect.Workers.PolicyEngine.Handoff.{Env as Values}
use dsx_connect.Workers.PolicyEngine.Plans.{default_remediation_plan_for_verdict}
use dsx_connect.Workers.Remediation.Request.{
  RemediationRequested, ConnectorRemediationRequest, ItemAction, as_connector_action_request,
  as_connector_remediation_request, request_for_plan, as_legacy_action_request,
}
use dsx_connect.Workers.Remediation.Connector.{
  Env, Integration, Call, Reply, prepare_call, check_capability,
  resolve_connector_action_runtime_config, build_auth_headers,
  build_legacy_connector_action_payload,
}
use dsx_connect.Workers.Remediation.Executor.{execute_remediation}
use dsx_connect.Workers.Remediation.Plan.{asked_action, plan_reaches_connector}
use dsx_connect.Workers.Remediation.Allowed.{prepared_call_supported}
use dsx_connect.Workers.Remediation.Quiet.{outcome, lost_call_succeeds}
use dsx_connect.Workers.Examples.Policy.{policy, malicious_policy, handoff_of}

abbrev proxy : ProxyReaderConfig
proxy = record {
  endpoint_url = some "http://c/read_file";
  base_url = none;
  connector_name = none;
  auth_mode = ProxyAuthMode.no_auth;
  header_name = none;
  header_value = none;
  hmac_key_id = none;
  hmac_secret = none;
}

abbrev values : Values
values = record {
  parser = record {
    integration = λ v. some (record {
      reader_proxy = some proxy;
      delivery_proxy = none;
      remediation = none;
      policy = none;
    });
    policy = λ v. some default_policy;
  };
  read_decision = λ v. none;
  repr = λ v. "";
  dict_of = λ vs. none;
}

abbrev integration : Integration
integration = record { config = no_fields; capability_remediate = true }

abbrev env : Env
env = record {
  values = values;
  integration = λ id. some integration;
  sign = λ k s u p. "";
  put = λ c. Reply.no_connection;
}

abbrev request : RemediationRequested
request = record {
  job_id = "j";
  job_item_id = "i";
  integration_id = some "int";
  scope_id = none;
  object_identity = "/a/b.txt";
  content_source = default_content_source;
  scan_result = (handoff_of "malicious").scan_result;
  remediation_plan = field "action" (str "delete") no_fields;
}

plan_reaches_connector_example :
    asked_action (as_connector_action_request values request) ≡ some ItemAction.delete
unfolding default_remediation_plan_for_verdict
plan_reaches_connector_example =
    plan_reaches_connector values policy malicious_policy request refl refl

abbrev normalized : ConnectorRemediationRequest
normalized = record {
  action = ItemAction.delete;
  destination = no_fields;
  tags = no_fields;
  details = no_fields;
}

abbrev call : Call
call = record {
  endpoint_url = "http://c/item_action";
  payload =
      build_legacy_connector_action_payload env request normalized
        (as_legacy_action_request values normalized) "http://c";
  headers =
      field "Content-Type" (str "application/json")
        (field "Accept" (str "application/json") no_fields);
}

abbrev capabilities : RemediationCapabilitiesConfig
capabilities = record {
  supports_delete = true;
  supports_move = true;
  supports_tag = true;
  supports_movetag = true;
  supports_overwrite = false;
  supports_metadata_preserving_move = false;
}

call_prepared : prepare_call env request ≡ ok (normalized, call)
unfolding prepare_call resolve_connector_action_runtime_config parse_integration_runtime_config
    before_last_slash as_connector_remediation_request request_for_plan get_field lower_strip
    check_capability resolve_remediation_capabilities supports_action build_auth_headers merge
call_prepared = refl

prepared_call_supported_example :
    (as_connector_remediation_request values request ≡ some normalized)
    × (get_field call.payload "item_action" ≡ str "delete")
    × (supports_action capabilities "delete" ≡ true)
unfolding resolve_remediation_capabilities parse_integration_runtime_config
prepared_call_supported_example =
    prepared_call_supported env request normalized call integration capabilities call_prepared refl
      refl

lost_call_succeeds_example :
    outcome (execute_remediation values (some env) request) ≡ some "succeeded"
unfolding as_connector_action_request as_connector_remediation_request request_for_plan get_field
    lower_strip
lost_call_succeeds_example =
    lost_call_succeeds env request (as_legacy_action_request values normalized) normalized call refl
      refl call_prepared refl
