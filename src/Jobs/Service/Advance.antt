-- ===== src/Jobs/Service/Advance.antt =====
-- dsx_connect_ng/dsx_connect_ng/jobs/service.py: the `advance_…` methods and the fast path of the policy stage.
use dsx_connect.Prelude.{
  ℕ, String, Bool, true, false, Option, none, some, List, [], ◌∷◌, if◌then◌else◌, ◌&&◌, not,
  is_empty,
}
use dsx_connect.Prelude.Value.{Fields, no_fields, field, str, has_field, or_empty}
use dsx_connect.Jobs.Models.{
  ItemState, StageName, StageState, StageUpdate, StageUpdateRequest, StageRecord, JobItemRecord,
  JobRecord, new_stage, is_completed,
}
use dsx_connect.Jobs.Policy.{PolicyHandoffDecision, is_requested, scan_result, workflow_summary}
use dsx_connect.Jobs.World.{Env, M, ◌>>=◌, ◌>>◌, pure, utcnow, raise_if, or_404, or_invalid}
use dsx_connect.Jobs.Repository.Items.{update_job_item_stages}
use dsx_connect.Jobs.Repository.Outbox.{create_outbox_record}
use dsx_connect.Jobs.Service.Lookup.{get_job_or_404, get_job_item_or_404}
use dsx_connect.Jobs.Service.Parent.{refresh_parent_job_state}
use dsx_connect.Jobs.Service.Stages.{update_stage, update_stage_from_current}
use dsx_connect.Jobs.Service.Envelopes.{
  build_policy_evaluation_requested, build_result_sink_emit_requested,
}
use dsx_connect.Jobs.Service.Publish.{publish_outbox_record}
use dsx_connect.Jobs.Service.Requests.{
  extract_delivery_targets_from_handoff, first_target, enqueue, read_back,
}
use dsx_connect.Jobs.Service.Choices.{
  scan_result_wanted, dianna_skipped_result, remediation_skipped_from_handoff, reason_fields,
}
use dsx_connect.Jobs.Service.FollowOn.{maybe_emit_follow_on_requests, keeps_content}

-- `update_…_stage`, the follow-on requests, and the item read again.
unfoldable pub advance_stage : Env → String → StageName → StageUpdateRequest → M JobItemRecord
advance_stage env job_item_id stage_name payload = do
  updated ← update_stage env job_item_id stage_name payload true
  maybe_emit_follow_on_requests env updated stage_name payload
  get_job_item_or_404 job_item_id

unfoldable pub advance_scan_stage : Env → String → StageUpdateRequest → M JobItemRecord
advance_scan_stage env id payload = advance_stage env id StageName.scan_stage payload

unfoldable pub advance_remediation_stage : Env → String → StageUpdateRequest → M JobItemRecord
advance_remediation_stage env id payload = advance_stage env id StageName.remediation_stage payload

unfoldable pub advance_dianna_stage : Env → String → StageUpdateRequest → M JobItemRecord
advance_dianna_stage env id payload = advance_stage env id StageName.dianna_stage payload

unfoldable pub advance_delivery_stage : Env → String → StageUpdateRequest → M JobItemRecord
advance_delivery_stage env id payload = do
  update_stage env id StageName.delivery_stage payload true
  get_job_item_or_404 id

abbrev pub is_completed_update : StageUpdate → Bool
is_completed_update StageUpdate.completed = true
is_completed_update _ = false

-- `payload.state == "completed"` with a result that has the new shape
abbrev fast_shape : StageUpdateRequest → Bool
fast_shape payload =
    is_completed_update payload.state && has_field (or_empty payload.result) "policy_stage_result"

-- Nothing is left to do for the item but to deliver its scan result.
unfoldable pub nothing_left : PolicyHandoffDecision → Bool
nothing_left handoff =
    not handoff.delivery.wait_for_dianna
    && not (is_requested handoff.dianna.state)
    && not (is_requested handoff.remediation.state)
    && not (keeps_content handoff.content_preservation.mode)
    && is_empty (extract_delivery_targets_from_handoff handoff workflow_summary)

-- The scan result is handed to its first target, if there is one; the answer says whether.
abbrev deliver_scan_result : Env → PolicyHandoffDecision → JobRecord → JobItemRecord → M Bool
deliver_scan_result env handoff job current =
    let result : Fields = or_empty current.scan_stage.result in
    let targets : List Fields = extract_delivery_targets_from_handoff handoff scan_result in
    if scan_result_wanted handoff result && not (is_empty targets)
    then (do
      requested ←
          build_result_sink_emit_requested env job current (first_target targets no_fields)
            scan_result result
      outbox ← create_outbox_record env job "result_sink.emit.requested" requested
      publish_outbox_record env outbox false
      pure true)
    else pure false

-- `StageRecord(state="skipped", completed_at=now, result=…)`
abbrev pub skipped_stage : ℕ → Fields → StageRecord
skipped_stage now result = record new_stage {
  state = StageState.skipped;
  completed_at = some now;
  result = some result;
}

abbrev fast_delivery_reason : Bool → Fields
fast_delivery_reason true =
    field "reason" (str "auxiliary_result_delivery_not_required")
      (field "result_type" (str "scan_result") no_fields)
fast_delivery_reason false = reason_fields "workflow_summary_not_requested"

-- The four stage records of the fast path.
abbrev fast_stages :
    PolicyHandoffDecision
    → StageUpdateRequest
    → JobItemRecord
    → Bool
    → ℕ
    → List (StageName × StageRecord)
fast_stages handoff payload current delivered now =
    let result : Fields = or_empty current.scan_stage.result in
    (
      StageName.policy_stage,
      record {
        state = StageState.completed;
        started_at = current.policy_stage.started_at;
        completed_at = some now;
        result = payload.result;
        metadata = payload.metadata;
        error = payload.error;
      },
    )
    ∷ (StageName.dianna_stage, skipped_stage now (dianna_skipped_result (some handoff) result))
    ∷ (
      StageName.remediation_stage,
      skipped_stage now (remediation_skipped_from_handoff handoff result),
    )
    ∷ (StageName.delivery_stage, skipped_stage now (fast_delivery_reason delivered))
    ∷ []

-- The part of the fast path after its tests.
unfoldable pub fast_complete :
    Env → PolicyHandoffDecision → StageUpdateRequest → JobItemRecord → M JobItemRecord
fast_complete env handoff payload current = do
  job ← get_job_or_404 current.job_id
  delivered ← deliver_scan_result env handoff job current
  now ← utcnow env
  found ←
      update_job_item_stages env current.job_item_id
        (fast_stages handoff payload current delivered now) ItemState.completed none (some now)
  updated ← or_404 found "job_item_not_found"
  refresh_parent_job_state env current.job_id
  pure updated

unfoldable pub try_fast_complete_policy_stage :
    Env → String → StageUpdateRequest → M (Option JobItemRecord)
try_fast_complete_policy_stage env job_item_id payload =
    if not (fast_shape payload) then pure none else do
      handoff ← or_invalid (env.codec.read_handoff (or_empty payload.result))
      if not (nothing_left handoff) then pure none else do
        current ← get_job_item_or_404 job_item_id
        if not (is_completed current.scan_stage.state)
            then pure none
            else do updated ← fast_complete env handoff payload current; pure (some updated)

unfoldable pub advance_policy_stage : Env → String → StageUpdateRequest → M JobItemRecord
advance_policy_stage env job_item_id payload = do
  fast_completed ← try_fast_complete_policy_stage env job_item_id payload
  elim fast_completed [
    | some row ↦ pure row
    | none ↦ advance_stage env job_item_id StageName.policy_stage payload
  ]

unfoldable pub complete_scan_and_request_policy :
    Env → String → StageUpdateRequest → M JobItemRecord
complete_scan_and_request_policy env job_item_id payload = do
  current ← get_job_item_or_404 job_item_id
  updated ← update_stage_from_current env current StageName.scan_stage payload false
  job ← get_job_or_404 updated.job_id
  raise_if (not (is_completed updated.scan_stage.state)) 409 "policy_requires_completed_scan"
  requested ← build_policy_evaluation_requested env job updated
  enqueue env job "policy.requested" requested
  read_back job_item_id
