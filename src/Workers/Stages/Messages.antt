-- ===== src/Workers/Stages/Messages.antt =====
-- dsx_connect_ng/dsx_connect_ng/jobs/contracts.py: the requests that the workers read from their envelopes.
use dsx_connect.Prelude.{String, Option, none, some, if◌then◌else◌, str_eq}
use dsx_connect.Prelude.Value.{Fields, Value, no_fields, obj, str, get_field, or_value}
use dsx_connect.Jobs.Models.{MessageEnvelope, ContentSource, DeliveryRequirements}
use dsx_connect.Jobs.Policy.{
  PolicyHandoffDecision, ResultType, scan_result, remediation_result, dianna_result,
  workflow_summary,
}
use dsx_connect.Jobs.World.{M, ◌>>=◌, pure, or_invalid}
use dsx_connect.Workers.PolicyEngine.Handoff.{ScanResult, PolicyHandoffRequest, dict_or_empty}
use dsx_connect.Workers.Remediation.Request.{RemediationRequested}

-- pydantic's `model_validate` and `model_dump` of what the messages carry.
pub record Codec : Type 0 where
  pub read_scan_result : Value → Option ScanResult
  pub read_content_source : Value → Option ContentSource
  pub read_delivery_requirements : Value → Option DeliveryRequirements
  pub dump_handoff : PolicyHandoffDecision → Fields

-- `payload.get(k) or {}`
abbrev or_dict : Fields → String → Value
or_dict payload k = or_value (get_field payload k) (obj no_fields)

-- The same, where a dict is wanted.
abbrev dict_field : Fields → String → M Fields
dict_field payload k = or_invalid (dict_or_empty (get_field payload k))

-- `payload.get(k) or default`, where a text is wanted
abbrev text_value : Value → Option String
text_value (str s) = some s
text_value _ = none

abbrev text_field : Fields → String → String → M String
text_field payload k default =
    or_invalid (text_value (or_value (get_field payload k) (str default)))

pub record PolicyEvaluationRequested : Type 0 where
  pub envelope : MessageEnvelope
  pub scan_result : ScanResult
  pub item_payload : Fields
  pub policy_context : Fields
  pub item_metadata : Fields

-- `PolicyEvaluationRequested.from_envelope`; the fields that are copied stay in the envelope.
unfoldable pub policy_from_envelope : Codec → MessageEnvelope → M PolicyEvaluationRequested
policy_from_envelope codec e = do
  result ← or_invalid (codec.read_scan_result (or_dict e.payload "scan_result"))
  item_payload ← dict_field e.payload "item_payload"
  policy_context ← dict_field e.payload "policy_context"
  item_metadata ← dict_field e.payload "item_metadata"
  pure (record {
    envelope = e;
    scan_result = result;
    item_payload = item_payload;
    policy_context = policy_context;
    item_metadata = item_metadata;
  })

-- `as_policy_handoff_request`
unfoldable pub as_policy_handoff_request :
    Codec → PolicyEvaluationRequested → M PolicyHandoffRequest
as_policy_handoff_request codec r = do
  content_source ← or_invalid (codec.read_content_source (or_dict r.item_payload "content_source"))
  delivery_requirements ←
      or_invalid (codec.read_delivery_requirements (or_dict r.item_payload "delivery_requirements"))
  pure (record {
    job_id = r.envelope.job_id;
    job_item_id = r.envelope.job_item_id;
    integration_id = r.envelope.integration_id;
    scope_id = r.envelope.scope_id;
    object_identity = r.envelope.object_identity;
    content_source = content_source;
    delivery_requirements = delivery_requirements;
    scan_result = r.scan_result;
    item_payload = r.item_payload;
    policy_context = r.policy_context;
    item_metadata = r.item_metadata;
  })

-- `RemediationRequested.from_envelope`
unfoldable pub remediation_from_envelope : Codec → MessageEnvelope → M RemediationRequested
remediation_from_envelope codec e = do
  content_source ← or_invalid (codec.read_content_source (or_dict e.payload "content_source"))
  result ← or_invalid (codec.read_scan_result (or_dict e.payload "scan_result"))
  plan ← dict_field e.payload "remediation_plan"
  pure (record {
    job_id = e.job_id;
    job_item_id = e.job_item_id;
    integration_id = e.integration_id;
    scope_id = e.scope_id;
    object_identity = e.object_identity;
    content_source = content_source;
    scan_result = result;
    remediation_plan = plan;
  })

pub record DiannaAnalysisRequested : Type 0 where
  pub envelope : MessageEnvelope
  pub content_source : ContentSource
  pub request_reason : String
  pub scan_result : ScanResult
  pub request_options : Fields

-- `DiannaAnalysisRequested.from_envelope`
unfoldable pub dianna_from_envelope : Codec → MessageEnvelope → M DiannaAnalysisRequested
dianna_from_envelope codec e = do
  content_source ← or_invalid (codec.read_content_source (or_dict e.payload "content_source"))
  reason ← text_field e.payload "request_reason" "manual"
  result ← or_invalid (codec.read_scan_result (or_dict e.payload "scan_result"))
  options ← dict_field e.payload "request_options"
  pure (record {
    envelope = e;
    content_source = content_source;
    request_reason = reason;
    scan_result = result;
    request_options = options;
  })

pub record ResultSinkEmitRequested : Type 0 where
  pub envelope : MessageEnvelope
  pub result_type : ResultType
  pub result_payload : Fields
  pub final_result : Fields
  pub delivery_target : Fields

-- The four literals of `result_type`.
abbrev result_type_of : String → Option ResultType
result_type_of s =
    if str_eq s "scan_result"
    then some scan_result
    else if str_eq s "remediation_result"
    then some remediation_result
    else if str_eq s "dianna_result"
    then some dianna_result
    else if str_eq s "workflow_summary"
    then some workflow_summary
    else none

-- `ResultSinkEmitRequested.from_envelope`
unfoldable pub sink_from_envelope : MessageEnvelope → M ResultSinkEmitRequested
sink_from_envelope e = do
  text ← text_field e.payload "result_type" "workflow_summary"
  result_type ← or_invalid (result_type_of text)
  result_payload ← dict_field e.payload "result_payload"
  final_result ← dict_field e.payload "final_result"
  delivery_target ← dict_field e.payload "delivery_target"
  pure (record {
    envelope = e;
    result_type = result_type;
    result_payload = result_payload;
    final_result = final_result;
    delivery_target = delivery_target;
  })
