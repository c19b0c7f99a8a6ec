-- ===== src/Workers/Remediation/Response.antt =====
-- dsx_connect_ng/dsx_connect_ng/workers/connector_actions.py: the reading of a connector's answer.
use dsx_connect.Prelude.{String, Option, none, some, [], ◌∷◌, if◌then◌else◌, str_eq}
use dsx_connect.Prelude.Value.{Fields, Value, null, str, obj, get_field, or_value, truthy}
use dsx_connect.Prelude.Text.{lower_strip}
use dsx_connect.Workers.PolicyEngine.Handoff.{Env as Values, text_of, opt_text}
use dsx_connect.Workers.PolicyEngine.Plans.{is_one_of}
use dsx_connect.Workers.Remediation.Request.{ItemAction, item_action_text}

abbrev action_value : ItemAction → Value
action_value action = str (item_action_text action)

pub data RemediationStatus : Type 0 where
  success nothing not_supported permission_error object_not_found : RemediationStatus
  transient_platform_error error : RemediationStatus

pub record ConnectorRemediationResponse : Type 0 where
  pub status : RemediationStatus
  pub applied_action : ItemAction
  pub target_path : Option String
  pub details : Fields
  pub error_code : Option String
  pub error_message : Option String

-- The ladder over the status of an answer, without outer spaces and in lower case.
unfoldable pub normalized_status : String → RemediationStatus
normalized_status status =
    if is_one_of status ("ok" ∷ "success" ∷ "completed" ∷ [])
    then RemediationStatus.success
    else if is_one_of status ("noop" ∷ "nothing" ∷ [])
    then RemediationStatus.nothing
    else if is_one_of status ("not_supported" ∷ "unsupported" ∷ [])
    then RemediationStatus.not_supported
    else if is_one_of status ("permission_error" ∷ "forbidden" ∷ [])
    then RemediationStatus.permission_error
    else if is_one_of status ("object_not_found" ∷ "not_found" ∷ [])
    then RemediationStatus.object_not_found
    else if is_one_of status ("transient_platform_error" ∷ "retry" ∷ "temporary_error" ∷ [])
    then RemediationStatus.transient_platform_error
    else RemediationStatus.error

-- `_normalize_response_action`
unfoldable pub normalize_response_action : Values → Value → ItemAction → ItemAction
normalize_response_action env value fallback =
    let n : String = lower_strip (text_of env (or_value value (action_value fallback))) in
    if str_eq n "nothing"
    then ItemAction.nothing
    else if str_eq n "delete"
    then ItemAction.delete
    else if str_eq n "move"
    then ItemAction.move
    else if str_eq n "tag"
    then ItemAction.tag
    else if str_eq n "movetag"
    then ItemAction.movetag
    else fallback

-- `str(v) if v else None`, and `str(v) if v is not None else None`
abbrev true_text : Values → Value → Option String
true_text env v = if truthy v then some (text_of env v) else none

abbrev some_text : Values → Value → Option String
some_text env null = none
some_text env v = some (text_of env v)

-- `normalize_connector_remediation_response`
unfoldable pub normalize_connector_remediation_response :
    Values → Fields → ItemAction → Option String → Option ConnectorRemediationResponse
normalize_connector_remediation_response env payload fallback target_path =
    elim (or_value (get_field payload "details") (obj payload)) [
      | obj details ↦ some (record {
        status =
            normalized_status
              (lower_strip (text_of env (or_value (get_field payload "status") (str ""))));
        applied_action =
            normalize_response_action env
              (or_value
                (or_value (get_field payload "applied_action") (get_field payload "appliedAction"))
                (get_field payload "action"))
              fallback;
        target_path = true_text env (
            or_value
              (or_value
                (or_value (get_field payload "target_path") (get_field payload "targetPath"))
                (get_field payload "path"))
              (opt_text target_path));
        details = details;
        error_code =
            some_text env
              (or_value (get_field payload "error_code") (get_field payload "errorCode"));
        error_message = some_text env (
            or_value
              (or_value (get_field payload "error_message") (get_field payload "errorMessage"))
              (get_field payload "message"));
      })
      | _ ↦ none
    ]
