-- ===== src/Jobs/Service/Requests.antt =====
-- dsx_connect_ng/dsx_connect_ng/jobs/service.py: the requests for policy, remediation, DIANNA and result delivery.
-- Each checks its preconditions, writes an outbox row and publishes it.
use dsx_connect.Prelude.{
  String, Bool, true, false, Option, none, some, List, [], ◌∷◌, if◌then◌else◌, ◌&&◌, ◌||◌, not,
  or_else, is_empty,
}
use dsx_connect.Prelude.Value.{
  Fields, no_fields, field, str, get_field, has_field, or_value, as_fields, has_fields,
  text_or_empty, or_empty,
}
use dsx_connect.Prelude.Text.{codes, same_codes, lower}
use dsx_connect.Jobs.Models.{
  ItemState, StageName, StageUpdate, StageUpdateRequest, ContentSourceMode, JobRecord,
  JobItemRecord, Envelope, is_completed, is_pending, is_running, is_skipped, is_terminal_stage,
  is_item_state,
}
use dsx_connect.Jobs.Policy.{
  PolicyHandoffDecision, ResultType, scan_result, remediation_result, dianna_result,
  workflow_summary,
}
use dsx_connect.Jobs.World.{Env, M, ◌>>=◌, ◌>>◌, pure, raise_if, or_500, or_invalid}
use dsx_connect.Jobs.Repository.Items.{
  get_job_item, update_job_item_state, update_job_item_delivery_requirements,
}
use dsx_connect.Jobs.Repository.Outbox.{create_outbox_record}
use dsx_connect.Jobs.Service.Lookup.{get_job_or_404, get_job_item_or_404}
use dsx_connect.Jobs.Service.Parent.{refresh_parent_job_state}
use dsx_connect.Jobs.Service.Stages.{update_stage}
use dsx_connect.Jobs.Service.Envelopes.{
  DiannaAnalysisRequest, result_type_text, build_policy_evaluation_requested,
  build_remediation_requested, build_dianna_analysis_requested, build_result_sink_emit_requested,
}
use dsx_connect.Jobs.Service.Publish.{publish_outbox_record}

-- `_extract_policy_handoff_decision`: the result of the policy stage, if it has the new shape.
unfoldable pub extract_policy_handoff_decision :
    Env → JobItemRecord → M (Option PolicyHandoffDecision)
extract_policy_handoff_decision env job_item =
    let policy_result : Fields = or_empty job_item.policy_stage.result in
    if has_field policy_result "policy_stage_result"
    then (do handoff ← or_invalid (env.codec.read_handoff policy_result); pure (some handoff))
    else pure none

-- `candidate_targets if configured else candidate_targets or delivery.targets`
abbrev configured_targets : Bool → List Fields → List Fields → List Fields
configured_targets configured candidates fallback =
    if configured then candidates else if is_empty candidates then fallback else candidates

unfoldable pub extract_delivery_targets_from_handoff :
    PolicyHandoffDecision → ResultType → List Fields
extract_delivery_targets_from_handoff handoff scan_result =
    configured_targets handoff.delivery.scan_targets_configured handoff.delivery.scan_targets
      handoff.delivery.targets
extract_delivery_targets_from_handoff handoff remediation_result =
    configured_targets handoff.delivery.remediation_targets_configured
      handoff.delivery.remediation_targets handoff.delivery.targets
extract_delivery_targets_from_handoff handoff dianna_result =
    configured_targets handoff.delivery.dianna_targets_configured handoff.delivery.dianna_targets
      handoff.delivery.targets
extract_delivery_targets_from_handoff handoff workflow_summary =
    configured_targets handoff.delivery.workflow_summary_targets_configured
      handoff.delivery.workflow_summary_targets handoff.delivery.targets

-- The fallback chain of `_extract_delivery_target`.
abbrev legacy_delivery_target : JobItemRecord → Fields
legacy_delivery_target job_item =
    let policy_result : Fields = or_empty job_item.policy_stage.result in
    as_fields (
      or_value (get_field policy_result "delivery_target") (
        or_value (get_field policy_result "deliveryTarget") (
          or_value (get_field job_item.payload "deliveryTarget")
            (get_field job_item.payload "delivery_target"))))

abbrev pub first_target : List Fields → Fields → Fields
first_target [] d = d
first_target (t ∷ ts) d = t

unfoldable pub extract_delivery_target : Env → JobItemRecord → ResultType → M Fields
extract_delivery_target env job_item result_type = do
  handoff ← extract_policy_handoff_decision env job_item
  elim handoff [
    | none ↦ pure (legacy_delivery_target job_item)
    | some h ↦ pure (
        first_target (extract_delivery_targets_from_handoff h result_type)
          (legacy_delivery_target job_item))
  ]

unfoldable pub delivery_blocked_by_dianna : JobItemRecord → Bool
delivery_blocked_by_dianna job_item =
    job_item.delivery_requirements.wait_for_dianna
    && not (is_terminal_stage job_item.dianna_stage.state)

-- The outbox row of a message, published, and the item read back.
abbrev pub enqueue : Env → JobRecord → String → Envelope → M (Unit {0})
enqueue env job topic envelope = do
  outbox ← create_outbox_record env job topic envelope
  publish_outbox_record env outbox true
  pure tt

abbrev pub read_back : String → M JobItemRecord
read_back job_item_id = do
  refreshed ← get_job_item job_item_id
  or_500 refreshed "job_item_state_update_failed"

unfoldable pub request_remediation : Env → String → Fields → M JobItemRecord
request_remediation env job_item_id remediation_plan = do
  current ← get_job_item_or_404 job_item_id
  job ← get_job_or_404 current.job_id
  raise_if (not (is_completed current.scan_stage.state)) 409 "remediation_requires_completed_scan"
  raise_if (not (has_fields remediation_plan)) 400 "remediation_plan_required"
  requested ← build_remediation_requested env job current remediation_plan
  enqueue env job "remediation.requested" requested
  read_back job_item_id

unfoldable pub request_policy_evaluation : Env → String → M JobItemRecord
request_policy_evaluation env job_item_id = do
  current ← get_job_item_or_404 job_item_id
  job ← get_job_or_404 current.job_id
  raise_if (not (is_completed current.scan_stage.state)) 409 "policy_requires_completed_scan"
  requested ← build_policy_evaluation_requested env job current
  enqueue env job "policy.requested" requested
  read_back job_item_id

-- `verdict and verdict not in {"malicious", "suspicious"}`, after `lower()`
abbrev pub is_threat : String → Bool
is_threat verdict =
    let c = lower (codes verdict) in
    same_codes c (codes "malicious") || same_codes c (codes "suspicious")

abbrev pub non_malicious : String → Bool
non_malicious verdict = not (is_empty (codes verdict)) && not (is_threat verdict)

abbrev is_none_mode : ContentSourceMode → Bool
is_none_mode ContentSourceMode.none = true
is_none_mode _ = false

-- `repo.update_job_item_delivery_requirements(…) or current`, if the request waits for DIANNA.
abbrev wait_if : Env → Bool → JobItemRecord → String → M JobItemRecord
wait_if env false current job_item_id = pure current
wait_if env true current job_item_id = do
  updated ← update_job_item_delivery_requirements env job_item_id true
  pure (or_else updated current)

unfoldable pub request_dianna_analysis : Env → String → DiannaAnalysisRequest → M JobItemRecord
request_dianna_analysis env job_item_id payload = do
  current ← get_job_item_or_404 job_item_id
  job ← get_job_or_404 current.job_id
  verdict ← or_invalid (text_or_empty (get_field (or_empty current.scan_stage.result) "verdict"))
  raise_if (not (is_completed current.scan_stage.state)) 409 "dianna_requires_completed_scan"
  raise_if (non_malicious verdict) 409 "dianna_not_applicable_for_non_malicious_scan"
  raise_if (is_none_mode current.content_source.mode) 409 "dianna_requires_available_content_source"
  current' ← wait_if env payload.wait_for_delivery current job_item_id
  requested ← build_dianna_analysis_requested env job current' payload
  enqueue env job "dianna.requested" requested
  read_back job_item_id

-- The write of `deliver_pending`, unless the item is there already.
abbrev mark_deliver_pending : Env → String → JobItemRecord → M JobItemRecord
mark_deliver_pending env job_item_id current =
    if is_item_state current.state ItemState.deliver_pending then pure current else do
      updated ← update_job_item_state env job_item_id ItemState.deliver_pending current.error none
      let row = or_else updated current
      refresh_parent_job_state env row.job_id
      pure row

unfoldable pub request_workflow_summary_emit : Env → String → Fields → M JobItemRecord
request_workflow_summary_emit env job_item_id delivery_target = do
  current ← get_job_item_or_404 job_item_id
  job ← get_job_or_404 current.job_id
  raise_if (not (is_completed current.scan_stage.state)) 409 "delivery_requires_completed_scan"
  raise_if (is_running current.remediation_stage.state) 409
      "delivery_requires_terminal_remediation_state"
  raise_if (delivery_blocked_by_dianna current) 409 "delivery_waiting_on_dianna"
  current' ← mark_deliver_pending env job_item_id current
  requested ←
      build_result_sink_emit_requested env job current' delivery_target workflow_summary no_fields
  enqueue env job "result_sink.emit.requested" requested
  read_back job_item_id

abbrev pub skipped_request : Fields → StageUpdateRequest
skipped_request result = record {
  state = StageUpdate.skipped;
  result = some result;
  metadata = none;
  error = none;
}

-- `{"reason": "auxiliary_result_delivery_not_required", "result_type": result_type}`
abbrev auxiliary_reason : String → Fields
auxiliary_reason result_type =
    field "reason" (str "auxiliary_result_delivery_not_required")
      (field "result_type" (str result_type) no_fields)

-- The delivery stage is skipped once the remediation is over and nothing else was delivered.
abbrev skip_delivery : Env → String → String → JobItemRecord → M JobItemRecord
skip_delivery env job_item_id result_type refreshed =
    if (is_completed refreshed.remediation_stage.state
        || is_skipped refreshed.remediation_stage.state)
      && is_pending refreshed.delivery_stage.state
    then update_stage env job_item_id StageName.delivery_stage
        (skipped_request (auxiliary_reason result_type)) true
    else pure refreshed

unfoldable pub request_stage_result_delivery : Env → String → ResultType → Fields → M JobItemRecord
request_stage_result_delivery env job_item_id result_type result_payload = do
  current ← get_job_item_or_404 job_item_id
  job ← get_job_or_404 current.job_id
  delivery_target ← extract_delivery_target env current result_type
  if not (has_fields delivery_target) then pure current else do
    requested ←
        build_result_sink_emit_requested env job current delivery_target result_type result_payload
    enqueue env job "result_sink.emit.requested" requested
    refreshed ← read_back current.job_item_id
    skip_delivery env job_item_id (result_type_text result_type) refreshed
