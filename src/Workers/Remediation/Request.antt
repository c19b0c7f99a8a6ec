-- ===== src/Workers/Remediation/Request.antt =====
-- dsx_connect_ng/dsx_connect_ng/jobs/contracts.py and jobs/models.py: the request for a remediation, and what it asks
-- of a connector.
use Prim.Native.String.{◌++◌ as str_append}
use dsx_connect.Prelude.{ℕ, String, Bool, Option, none, some, if◌then◌else◌, str_eq, max}
use dsx_connect.Prelude.Value.{
  Fields, Value, no_fields, field, num, str, obj, get_field, or_value, truthy,
}
use dsx_connect.Prelude.Text.{
  lower_strip, lower_text, strip, basename, rstrip_slashes, only_alnum, take_text, drop_text,
  has_prefix,
}
use dsx_connect.Jobs.Models.{ContentSource}
use dsx_connect.Workers.Consumer.{to_int}
use dsx_connect.Workers.PolicyEngine.Handoff.{
  Env as Values, ScanResult, ◌>>=◌, text_of, dict_or_empty,
}

pub data ItemAction : Type 0 where
  nothing delete move tag movetag : ItemAction

abbrev pub item_action_text : ItemAction → String
item_action_text ItemAction.nothing = "nothing"
item_action_text ItemAction.delete = "delete"
item_action_text ItemAction.move = "move"
item_action_text ItemAction.tag = "tag"
item_action_text ItemAction.movetag = "movetag"

-- `remediation_plan` is the plan inside of the `RemediationRequest`.
pub record RemediationRequested : Type 0 where
  pub job_id : String
  pub job_item_id : String
  pub integration_id : Option String
  pub scope_id : Option String
  pub object_identity : String
  pub content_source : ContentSource
  pub scan_result : ScanResult
  pub remediation_plan : Fields

pub record ConnectorRemediationRequest : Type 0 where
  pub action : ItemAction
  pub destination : Fields
  pub tags : Fields
  pub details : Fields

pub record ConnectorActionRequest : Type 0 where
  pub item_action : ItemAction
  pub item_action_move_metainfo : Option String
  pub tags : Fields
  pub details : Fields

-- A request for an action alone.
abbrev only : ItemAction → ConnectorRemediationRequest
only action = record {
  action = action;
  destination = no_fields;
  tags = no_fields;
  details = no_fields;
}

-- `{k: str(v) for k, v in d.items()}`
abbrev texts_in : Values → Fields → Fields
texts_in env no_fields = no_fields
texts_in env (field k v d) = field k (str (text_of env v)) (texts_in env d)

-- `plan.get("tags") or {"Verdict": "Malicious"}`
abbrev plan_tags : Values → Fields → Option Fields
plan_tags env plan = do
  tags ←
      dict_or_empty
        (or_value (get_field plan "tags") (obj (field "Verdict" (str "Malicious") no_fields)))
  some (texts_in env tags)

abbrev without_prefix : String → String
without_prefix s = if has_prefix s "job_item_" then drop_text 9 s else s

abbrev nonempty : String → String → String
nonempty s default = if str_eq s "" then default else s

-- `_quarantine_suffix_token`
unfoldable pub quarantine_suffix_token : String → ℕ → String
unfolding strip take_text drop_text only_alnum lower_text
quarantine_suffix_token job_item_id suffix_length =
    let n : String = without_prefix (strip job_item_id) in
    let token : String = lower_text (only_alnum n) in
    if str_eq token ""
    then nonempty (take_text (max 1 suffix_length) n) "quarantine"
    else take_text (max 1 suffix_length) token

-- `_resolved_quarantine_filename`
unfoldable pub resolved_quarantine_filename : String → String → ℕ → String
unfolding basename rstrip_slashes quarantine_suffix_token
resolved_quarantine_filename source_locator job_item_id suffix_length =
    str_append (nonempty (basename (rstrip_slashes source_locator)) "quarantine-object")
      (str_append "_" (quarantine_suffix_token job_item_id suffix_length))

-- `int(v)`, for natural numbers
abbrev int_of : Value → Option ℕ
int_of (num n) = some n
int_of v = to_int v

-- `int(quarantine_target.get("suffix_length") or 10)`
abbrev suffix_length_of : Fields → Option ℕ
suffix_length_of target = int_of (or_value (get_field target "suffix_length") (num 10))

-- `plan.get("targetPath") or plan.get("target_path") or …`
abbrev move_target : Fields → Fields → Value
move_target plan target =
    or_value
      (or_value (or_value (get_field plan "targetPath") (get_field plan "target_path"))
        (get_field target "path"))
      (get_field target "prefix")

abbrev destination_of : Values → Value → String → Fields
destination_of env path filename =
    let rest : Fields = field "filename" (str filename) no_fields in
    if truthy path then field "path" (str (text_of env path)) rest else rest

abbrev tags_if : Values → Bool → Fields → Option Fields
tags_if env enabled plan = if enabled then plan_tags env plan else some no_fields

-- The branch of `quarantine`.
abbrev quarantine_request :
    Values → RemediationRequested → Fields → Option ConnectorRemediationRequest
quarantine_request env request plan = do
  target ← dict_or_empty (get_field plan "quarantineTarget")
  suffix_length ← suffix_length_of target
  let source = text_of env (or_value request.content_source.locator (str request.object_identity))
  let filename = resolved_quarantine_filename source request.job_item_id suffix_length
  let tag_enabled = truthy (get_field plan "tag")
  tags ← tags_if env tag_enabled plan
  some (record {
    action = if tag_enabled then ItemAction.movetag else ItemAction.move;
    destination = destination_of env (move_target plan target) filename;
    tags = tags;
    details =
        field "quarantine_target" (obj target) (field "resolved_filename" (str filename) no_fields);
  })

abbrev tag_request : Values → Fields → Option ConnectorRemediationRequest
tag_request env plan = do
  tags ← plan_tags env plan
  some (record (only ItemAction.tag) { tags = tags })

-- What `as_connector_remediation_request` makes of the plan.
unfoldable pub request_for_plan :
    Values → RemediationRequested → Fields → Option ConnectorRemediationRequest
request_for_plan env request plan =
    let action : String =
      lower_strip (text_of env (or_value (get_field plan "action") (str "nothing"))) in
    if str_eq action "delete"
    then some (only ItemAction.delete)
    else if str_eq action "tag_only"
    then tag_request env plan
    else if str_eq action "quarantine"
    then quarantine_request env request plan
    else some (only ItemAction.nothing)

abbrev metainfo : Values → Value → Option String
metainfo env v = if truthy v then some (text_of env v) else none

-- `as_connector_remediation_request`
unfoldable pub as_connector_remediation_request :
    Values → RemediationRequested → Option ConnectorRemediationRequest
as_connector_remediation_request env request = request_for_plan env request request.remediation_plan

-- `as_legacy_action_request`
abbrev pub as_legacy_action_request : Values → ConnectorRemediationRequest → ConnectorActionRequest
as_legacy_action_request env request = record {
  item_action = request.action;
  item_action_move_metainfo =
      metainfo env
        (or_value (get_field request.destination "path") (get_field request.destination "prefix"));
  tags = request.tags;
  details = request.details;
}

-- `as_connector_action_request`
unfoldable pub as_connector_action_request :
    Values → RemediationRequested → Option ConnectorActionRequest
as_connector_action_request env request = do
  r ← as_connector_remediation_request env request
  some (as_legacy_action_request env r)
