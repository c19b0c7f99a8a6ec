-- ===== src/Workers/Remediation/Executor.antt =====
-- dsx_connect_ng/dsx_connect_ng/workers/connector_actions.py and remediation_worker.py: the answer of a connector, and
-- the executors of remediations.
use Prim.Native.String.{◌++◌ as str_append}
use dsx_connect.Prelude.{
  String, Bool, true, false, Option, none, some, if◌then◌else◌, ◌||◌, ◌&&◌, not, str_eq, ◌==◌,
  is_some,
}
use dsx_connect.Prelude.Value.{
  Fields, no_fields, field, null, bool, str, obj, get_field, or_value, truthy, merge,
}
use dsx_connect.Prelude.Text.{lower_text}
use dsx_connect.Jobs.World.{Result, ok, raised, invalid, terminal_error, other_error}
use dsx_connect.Workers.PolicyEngine.Handoff.{Env as Values, text_of, opt_text}
use dsx_connect.Workers.Remediation.Request.{
  RemediationRequested, ConnectorRemediationRequest, ConnectorActionRequest, ItemAction,
  item_action_text, as_legacy_action_request, as_connector_action_request,
}
use dsx_connect.Workers.Remediation.Connector.{Env, Reply, ◌>>=◌, checked, prepare_call}
use dsx_connect.Workers.Remediation.Response.{
  RemediationStatus, ConnectorRemediationResponse, normalize_connector_remediation_response,
}

pub record RemediationResult : Type 0 where
  pub action : String
  pub outcome : String
  pub target_path : Option String
  pub details : Fields

abbrev status_text : RemediationStatus → String
status_text RemediationStatus.success = "success"
status_text RemediationStatus.nothing = "nothing"
status_text RemediationStatus.not_supported = "not_supported"
status_text RemediationStatus.permission_error = "permission_error"
status_text RemediationStatus.object_not_found = "object_not_found"
status_text RemediationStatus.transient_platform_error = "transient_platform_error"
status_text RemediationStatus.error = "error"

-- The outcome of the result, by the status of the answer.
abbrev pub outcome_of : RemediationStatus → String
outcome_of RemediationStatus.nothing = "noop"
outcome_of RemediationStatus.success = "succeeded"
outcome_of _ = "failed"

-- `model_dump(mode="json")` of the three records
abbrev dump_remediation_request : ConnectorRemediationRequest → Fields
dump_remediation_request r = field "action" (str (item_action_text r.action)) (
    field "destination" (obj r.destination)
      (field "tags" (obj r.tags) (field "details" (obj r.details) no_fields)))

abbrev dump_action_request : ConnectorActionRequest → Fields
dump_action_request a = field "item_action" (str (item_action_text a.item_action)) (
    field "item_action_move_metainfo" (opt_text a.item_action_move_metainfo)
      (field "tags" (obj a.tags) (field "details" (obj a.details) no_fields)))

abbrev dump_response : ConnectorRemediationResponse → Fields
dump_response r = field "status" (str (status_text r.status)) (
    field "applied_action" (str (item_action_text r.applied_action)) (
      field "targetPath" (opt_text r.target_path) (
        field "details" (obj r.details) (
          field "errorCode" (opt_text r.error_code)
            (field "errorMessage" (opt_text r.error_message) no_fields)))))

-- `str(plan.get("action") or "noop")`
abbrev plan_action : Values → Fields → String
plan_action env plan = text_of env (or_value (get_field plan "action") (str "noop"))

-- The JSON answer of a call, or the exception for another one; 404 and 422 are final.
unfoldable pub read_reply : Reply → Result Fields
read_reply (Reply.answered (obj payload)) = ok payload
read_reply (Reply.answered v) = raised (other_error "answer without fields")
read_reply Reply.unreadable = raised (other_error "answer is no JSON")
read_reply (Reply.http_error status) =
    if status == 404 || status == 422
    then raised (terminal_error "connector_action_rejected")
    else raised (other_error "connector item_action transient failure")
read_reply Reply.no_connection = raised (other_error "connector item_action transport failure")

abbrev result_of :
    Values
    → RemediationRequested
    → ConnectorRemediationRequest
    → ConnectorRemediationResponse
    → RemediationResult
result_of env request normalized response = record {
  action = plan_action env request.remediation_plan;
  outcome = outcome_of response.status;
  target_path = response.target_path;
  details = field "worker" (str "connector_item_action") (
      field "requestedAction" (obj (dump_remediation_request normalized)) (
        field "connectorAction"
          (obj (dump_action_request (as_legacy_action_request env normalized)))
          (field "connectorResponse" (obj (dump_response response)) no_fields)));
}

-- What is made of the answer of the connector.
unfoldable pub conclude :
    Values → RemediationRequested → ConnectorRemediationRequest → Fields → Result RemediationResult
conclude env request normalized payload =
    let action : ConnectorActionRequest = as_legacy_action_request env normalized in
    if str_eq (lower_text (text_of env (or_value (get_field payload "status") (str "")))) "error"
    then raised (terminal_error "connector_action_failed")
    else do
      response ←
          checked
            (normalize_connector_remediation_response env payload action.item_action
              action.item_action_move_metainfo)
            invalid
      ok (result_of env request normalized response)

-- `_connector_item_action_sync`
unfoldable pub connector_item_action : Env → RemediationRequested → Result RemediationResult
connector_item_action env request = do
  (normalized, call) ← prepare_call env request
  payload ← read_reply (env.put call)
  conclude env.values request normalized payload

-- The target path of the stub; a value that is no text fails the validation of the result.
abbrev pub stub_path : Values → RemediationRequested → Option (Option String)
stub_path env request =
    let plan : Fields = request.remediation_plan in
    elim (or_value (get_field plan "targetPath") (get_field plan "target_path")) [
      | null ↦ some (
          if str_eq (plan_action env plan) "quarantine"
          then some (str_append "/quarantine/" request.job_item_id)
          else none)
      | str s ↦ some (some s)
      | _ ↦ none
    ]

abbrev target_of_plan : Fields → Fields
target_of_plan plan = elim (get_field plan "quarantineTarget") [
  | null ↦ no_fields
  | v ↦ field "quarantineTarget" v no_fields
]

abbrev stub_tagged : Values → Fields → Bool
stub_tagged env plan =
    let action : String = plan_action env plan in
    (str_eq action "quarantine" || str_eq action "tag_only") && truthy (get_field plan "tag")

-- `stub_remediation_executor`
unfoldable pub stub_remediation_executor : Values → RemediationRequested → Result RemediationResult
stub_remediation_executor env request = do
  action ← checked (as_connector_action_request env request) invalid
  let plan = request.remediation_plan
  target_path ← checked (stub_path env request) invalid
  ok (record {
    action = plan_action env plan;
    outcome = "succeeded";
    target_path = target_path;
    details =
        merge
          (field "worker" (str "remediation_stub") (
            field "tagApplied" (bool (stub_tagged env plan))
              (field "connectorAction" (obj (dump_action_request action)) no_fields)))
          (target_of_plan plan);
  })

-- `except TerminalScanError: raise`, `except Exception: return await stub_remediation_executor(…)`
abbrev pub best_effort :
    Values → RemediationRequested → Result RemediationResult → Result RemediationResult
best_effort env request (ok result) = ok result
best_effort env request (raised (terminal_error code)) = raised (terminal_error code)
best_effort env request (raised x) = stub_remediation_executor env request

abbrev pub is_nothing : ItemAction → Bool
is_nothing ItemAction.nothing = true
is_nothing _ = false

-- `build_remediation_executor`; no control plane is `none`.
unfoldable pub execute_remediation :
    Values → Option Env → RemediationRequested → Result RemediationResult
execute_remediation values connector request = do
  action ← checked (as_connector_action_request values request) invalid
  if is_nothing action.item_action || not (is_some request.integration_id)
      then stub_remediation_executor values request
      else elim connector [
        | none ↦ stub_remediation_executor values request
        | some env ↦ best_effort values request (connector_item_action env request)
      ]
