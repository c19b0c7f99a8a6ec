-- ===== src/Workers/Stages/Process.antt =====
-- dsx_connect_ng/dsx_connect_ng/workers/: policy_worker.py, remediation_worker.py, dianna_worker.py and
-- delivery_worker.py, the handler of one message each.
use Prim.Native.String.{◌++◌ as str_append}
use dsx_connect.Prelude.{String, Bool, true, false, Option, none, some, if◌then◌else◌}
use dsx_connect.Prelude.Value.{Fields, no_fields, field, str, obj}
use dsx_connect.Jobs.Models.{
  MessageEnvelope, StageName, StageUpdate, StageUpdateRequest, ContentSourceMode,
}
use dsx_connect.Jobs.Policy.{PolicyHandoffDecision, ResultType, workflow_summary}
use dsx_connect.Jobs.World.{Env, M, ◌>>=◌, ◌>>◌, pure}
use dsx_connect.Jobs.Service.Stages.{update_stage}
use dsx_connect.Jobs.Service.Advance.{
  advance_policy_stage, advance_remediation_stage, advance_dianna_stage, advance_delivery_stage,
}
use dsx_connect.Workers.PolicyEngine.Handoff.{PolicyHandoffRequest, opt_text}
use dsx_connect.Workers.Remediation.Request.{RemediationRequested}
use dsx_connect.Workers.Remediation.Executor.{RemediationResult}
use dsx_connect.Workers.Stages.Messages.{
  Codec, DiannaAnalysisRequested, ResultSinkEmitRequested, policy_from_envelope,
  as_policy_handoff_request, remediation_from_envelope, dianna_from_envelope, sink_from_envelope,
}

-- `…StageUpdateRequest(state="running").as_stage_update_request()`
abbrev pub running_update : StageUpdateRequest
running_update = record {
  state = StageUpdate.running;
  result = none;
  metadata = none;
  error = none;
}

-- `…StageUpdateRequest(state="completed", …).as_stage_update_request()`, with the dump of the result
abbrev pub completed_update : Fields → StageUpdateRequest
completed_update result = record {
  state = StageUpdate.completed;
  result = some result;
  metadata = none;
  error = none;
}

-- `service.update_…_stage(job_item_id, …, refresh_parent=False)`
abbrev pub report_start : Env → String → StageName → M (Unit {0})
report_start env job_item_id stage_name = do
  update_stage env job_item_id stage_name running_update false
  pure tt

-- `process_policy_message`; `evaluate_policy` may raise.
unfoldable pub process_policy_message :
    Env → Codec → (PolicyHandoffRequest → M PolicyHandoffDecision) → MessageEnvelope → M (Unit {0})
process_policy_message env codec evaluate_policy envelope = do
  request ← policy_from_envelope codec envelope
  report_start env envelope.job_item_id StageName.policy_stage
  handoff ← as_policy_handoff_request codec request
  decision ← evaluate_policy handoff
  advance_policy_stage env envelope.job_item_id (completed_update (codec.dump_handoff decision))
  pure tt

-- `result.model_dump(mode="json", by_alias=True)`
abbrev pub dump_remediation : RemediationResult → Fields
dump_remediation r = field "action" (str r.action) (
    field "outcome" (str r.outcome)
      (field "targetPath" (opt_text r.target_path) (field "details" (obj r.details) no_fields)))

-- `process_remediation_message`
unfoldable pub process_remediation_message :
    Env → Codec → (RemediationRequested → M RemediationResult) → MessageEnvelope → M (Unit {0})
process_remediation_message env codec execute_remediation envelope = do
  request ← remediation_from_envelope codec envelope
  report_start env request.job_item_id StageName.remediation_stage
  result ← execute_remediation request
  advance_remediation_stage env request.job_item_id (completed_update (dump_remediation result))
  pure tt

pub record DiannaResult : Type 0 where
  pub analysis_id : Option String
  pub status : String
  pub details : Fields

abbrev dump_dianna : DiannaResult → Fields
dump_dianna r =
    field "analysisId" (opt_text r.analysis_id)
      (field "status" (str r.status) (field "details" (obj r.details) no_fields))

-- `process_dianna_message`
unfoldable pub process_dianna_message :
    Env → Codec → (DiannaAnalysisRequested → M DiannaResult) → MessageEnvelope → M (Unit {0})
process_dianna_message env codec execute_dianna envelope = do
  request ← dianna_from_envelope codec envelope
  report_start env envelope.job_item_id StageName.dianna_stage
  result ← execute_dianna request
  advance_dianna_stage env envelope.job_item_id (completed_update (dump_dianna result))
  pure tt

abbrev mode_text : ContentSourceMode → String
mode_text ContentSourceMode.original = "original"
mode_text ContentSourceMode.quarantine = "quarantine"
mode_text ContentSourceMode.cached = "cached"
mode_text ContentSourceMode.none = "none"

-- `stub_dianna_executor`
unfoldable pub stub_dianna_executor : DiannaAnalysisRequested → DiannaResult
stub_dianna_executor request = record {
  analysis_id = some (str_append "dianna-" request.envelope.job_item_id);
  status = "completed";
  details = field "worker" (str "dianna_stub") (
      field "reason" (str request.request_reason)
        (field "contentSourceMode" (str (mode_text request.content_source.mode)) no_fields));
}

pub record DeliveryResult : Type 0 where
  pub destination : Option String
  pub outcome : String
  pub external_reference : Option String
  pub details : Fields

abbrev pub dump_delivery : DeliveryResult → Fields
dump_delivery r = field "destination" (opt_text r.destination) (
    field "outcome" (str r.outcome) (
      field "externalReference" (opt_text r.external_reference)
        (field "details" (obj r.details) no_fields)))

abbrev pub is_summary : ResultType → Bool
is_summary workflow_summary = true
is_summary _ = false

-- `await execute_result_sink(request)` alone, for the result of a single stage.
abbrev emit_only :
    (ResultSinkEmitRequested → M DeliveryResult) → ResultSinkEmitRequested → M (Unit {0})
emit_only execute_result_sink request = do execute_result_sink request; pure tt

abbrev emit_summary :
    Env → (ResultSinkEmitRequested → M DeliveryResult) → ResultSinkEmitRequested → M (Unit {0})
emit_summary env execute_result_sink request = do
  report_start env request.envelope.job_item_id StageName.delivery_stage
  result ← execute_result_sink request
  advance_delivery_stage env request.envelope.job_item_id (completed_update (dump_delivery result))
  pure tt

-- `process_result_sink_message`
unfoldable pub process_result_sink_message :
    Env → (ResultSinkEmitRequested → M DeliveryResult) → MessageEnvelope → M (Unit {0})
process_result_sink_message env execute_result_sink envelope = do
  request ← sink_from_envelope envelope
  if is_summary request.result_type
      then emit_summary env execute_result_sink request
      else emit_only execute_result_sink request
