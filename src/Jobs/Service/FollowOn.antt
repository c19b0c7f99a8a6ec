-- ===== src/Jobs/Service/FollowOn.antt =====
-- dsx_connect_ng/dsx_connect_ng/jobs/service.py: `_maybe_emit_follow_on_requests` and
-- `_maybe_request_workflow_summary_emit`, what a finished stage asks for next.
use dsx_connect.Prelude.{
  Bool, true, false, Option, none, some, if◌then◌else◌, ◌&&◌, ◌||◌, not, str_eq, ◌==◌,
}
use dsx_connect.Prelude.Value.{
  Fields, Value, obj, no_fields, get_field, has_field, or_value, has_fields, or_empty, truthy,
}
use dsx_connect.Jobs.Models.{
  StageName, StageUpdate, StageUpdateRequest, ContentSourceMode, JobItemRecord, is_pending,
  is_terminal_stage,
}
use dsx_connect.Jobs.Policy.{
  PolicyHandoffDecision, PolicyDecision, is_requested, scan_result, remediation_result,
  dianna_result, workflow_summary, ResultType,
}
use dsx_connect.Jobs.World.{
  Env, M, Result, Raised, ok, raised, http, invalid, ◌>>=◌, ◌>>◌, pure, raise, when, or_invalid,
}
use dsx_connect.Jobs.Repository.Items.{
  update_job_item_delivery_requirements, update_job_item_content_source,
}
use dsx_connect.Jobs.Service.Lookup.{get_job_item_or_404}
use dsx_connect.Jobs.Service.Stages.{update_stage}
use dsx_connect.Jobs.Service.Envelopes.{DiannaAnalysisRequest}
use dsx_connect.Jobs.Service.Requests.{
  extract_policy_handoff_decision, extract_delivery_target, delivery_blocked_by_dianna,
  request_remediation, request_dianna_analysis, request_workflow_summary_emit,
  request_stage_result_delivery, skipped_request,
}
use dsx_connect.Jobs.Service.Choices.{
  scan_result_should_be_delivered, remediation_result_should_be_delivered,
  dianna_result_should_be_delivered, dianna_skipped_result, remediation_skipped_result,
  reason_fields,
}

-- The conflicts that leave the summary for later.
abbrev is_waiting : Raised → Bool
is_waiting (http status detail) =
    (status == 409)
    && (str_eq detail "delivery_waiting_on_dianna"
        || str_eq detail "delivery_requires_terminal_remediation_state")
is_waiting _ = false

-- `try: … except HTTPException as exc`, where the waiting conflicts are dropped
abbrev caught : {A : Type 0} → Result A → M (Unit {0})
caught (ok a) = pure tt
caught (raised x) = if is_waiting x then pure tt else raise x

abbrev pub unless_waiting : {A : Type 0} → M A → M (Unit {0})
unless_waiting m w = let (r, w') = m w in caught r w'

abbrev summary_not_needed : JobItemRecord → Bool
summary_not_needed job_item =
    is_pending job_item.delivery_stage.state
    && is_terminal_stage job_item.remediation_stage.state
    && not (delivery_blocked_by_dianna job_item)

unfoldable pub maybe_request_workflow_summary_emit : Env → JobItemRecord → M (Unit {0})
maybe_request_workflow_summary_emit env job_item = do
  delivery_target ← extract_delivery_target env job_item workflow_summary
  if has_fields delivery_target
      then unless_waiting (request_workflow_summary_emit env job_item.job_item_id delivery_target)
      else when (summary_not_needed job_item) (do
        update_stage env job_item.job_item_id StageName.delivery_stage
            (skipped_request (reason_fields "workflow_summary_not_requested")) true
        pure tt)

-- `if test: await …; job_item = self.get_job_item_or_404(job_item.job_item_id)`
abbrev then_reload : Bool → M (Unit {0}) → JobItemRecord → M JobItemRecord
then_reload test m job_item =
    if test then (do m; get_job_item_or_404 job_item.job_item_id) else pure job_item

abbrev require_dianna : Env → JobItemRecord → M (Unit {0})
require_dianna env job_item = do
  update_job_item_delivery_requirements env job_item.job_item_id true
  pure tt

abbrev pub keeps_content : ContentSourceMode → Bool
keeps_content ContentSourceMode.cached = true
keeps_content ContentSourceMode.quarantine = true
keeps_content _ = false

abbrev preserve_content : Env → PolicyHandoffDecision → JobItemRecord → M (Unit {0})
preserve_content env handoff job_item = do
  let preservation = handoff.content_preservation
  let locator = or_value (get_field preservation.details "locator") job_item.content_source.locator
  let updated_source = record job_item.content_source {
    mode = preservation.mode;
    locator = locator;
  }
  update_job_item_content_source env job_item.job_item_id updated_source
  pure tt

abbrev ask_dianna : Env → DiannaAnalysisRequest → JobItemRecord → M (Unit {0})
ask_dianna env payload job_item = do
  request_dianna_analysis env job_item.job_item_id payload
  pure tt

abbrev skip_stage : Env → StageName → Fields → JobItemRecord → M (Unit {0})
skip_stage env stage_name result job_item = do
  update_stage env job_item.job_item_id stage_name (skipped_request result) true
  pure tt

-- DIANNA is asked for, or its stage is skipped while it is pending.
abbrev settle_dianna :
    Env
    → Bool
    → DiannaAnalysisRequest
    → Option PolicyHandoffDecision
    → JobItemRecord
    → M JobItemRecord
settle_dianna env requested payload handoff job_item =
    if requested
    then then_reload true (ask_dianna env payload job_item) job_item
    else then_reload (is_pending job_item.dianna_stage.state)
        (skip_stage env StageName.dianna_stage
          (dianna_skipped_result handoff (or_empty job_item.scan_stage.result)) job_item)
        job_item

abbrev deliver_result : Env → ResultType → Fields → JobItemRecord → M (Unit {0})
deliver_result env result_type result job_item = do
  request_stage_result_delivery env job_item.job_item_id result_type result
  pure tt

-- The end of the policy branch, once no remediation is asked for.
abbrev settle_remediation : Env → Option PolicyHandoffDecision → JobItemRecord → M (Unit {0})
settle_remediation env handoff job_item = do
  skipped ←
      then_reload (is_pending job_item.remediation_stage.state)
        (skip_stage env StageName.remediation_stage (remediation_skipped_result handoff job_item)
          job_item)
        job_item
  deliver ← scan_result_should_be_delivered env skipped
  delivered ←
      then_reload deliver
        (deliver_result env scan_result (or_empty skipped.scan_stage.result) skipped) skipped
  maybe_request_workflow_summary_emit env delivered

-- `details.get("remediation_plan", {})` as the plan of a request: another value than a dict fails
-- its validation.
abbrev pub planned : Fields → Value
planned details =
    if has_field details "remediation_plan"
    then get_field details "remediation_plan"
    else obj no_fields

abbrev remediate : Env → Value → JobItemRecord → M (Unit {0})
remediate env (obj plan) job_item = do request_remediation env job_item.job_item_id plan; pure tt
remediate env _ job_item = raise invalid

abbrev handoff_dianna : PolicyHandoffDecision → DiannaAnalysisRequest
handoff_dianna handoff = record {
  reason = "auto_on_malicious";
  wait_for_delivery = handoff.delivery.wait_for_dianna;
  payload = handoff.dianna.details;
}

-- The policy branch for a handoff decision.
unfoldable pub follow_handoff : Env → PolicyHandoffDecision → JobItemRecord → M (Unit {0})
follow_handoff env handoff job_item = do
  waiting ← then_reload handoff.delivery.wait_for_dianna (require_dianna env job_item) job_item
  preserved ←
      then_reload (keeps_content handoff.content_preservation.mode)
        (preserve_content env handoff waiting) waiting
  analysed ←
      settle_dianna env (is_requested handoff.dianna.state) (handoff_dianna handoff) (some handoff)
        preserved
  let plan = planned handoff.remediation.details
  if is_requested handoff.remediation.state && truthy plan
      then remediate env plan analysed
      else settle_remediation env (some handoff) analysed

abbrev legacy_dianna : PolicyDecision → DiannaAnalysisRequest
legacy_dianna decision = record {
  reason = decision.dianna_reason;
  wait_for_delivery = decision.wait_for_dianna_before_delivery;
  payload = decision.dianna_options;
}

-- The policy branch for a decision of the old shape.
unfoldable pub follow_decision : Env → PolicyDecision → JobItemRecord → M (Unit {0})
follow_decision env decision job_item = do
  waiting ←
      then_reload decision.wait_for_dianna_before_delivery (require_dianna env job_item) job_item
  analysed ← settle_dianna env decision.request_dianna (legacy_dianna decision) none waiting
  if has_fields decision.remediation_plan
      then remediate env (obj decision.remediation_plan) analysed
      else settle_remediation env none analysed

abbrev follow_policy : Env → JobItemRecord → M (Unit {0})
follow_policy env job_item = do
  handoff ← extract_policy_handoff_decision env job_item
  elim handoff [
    | some h ↦ follow_handoff env h job_item
    | none ↦ do
      decision ← or_invalid (env.codec.read_decision (or_empty job_item.policy_stage.result))
      follow_decision env decision job_item
  ]

abbrev follow_remediation : Env → JobItemRecord → M (Unit {0})
follow_remediation env job_item = do
  deliver ← remediation_result_should_be_delivered env job_item
  delivered ←
      then_reload deliver
        (deliver_result env remediation_result (or_empty job_item.remediation_stage.result)
          job_item)
        job_item
  maybe_request_workflow_summary_emit env delivered

abbrev follow_dianna : Env → JobItemRecord → M (Unit {0})
follow_dianna env job_item = when job_item.delivery_requirements.wait_for_dianna (do
  deliver ← dianna_result_should_be_delivered env job_item
  delivered ←
      then_reload deliver
        (deliver_result env dianna_result (or_empty job_item.dianna_stage.result) job_item) job_item
  maybe_request_workflow_summary_emit env delivered)

abbrev follow_stage : Env → StageName → JobItemRecord → M (Unit {0})
follow_stage env StageName.policy_stage job_item = follow_policy env job_item
follow_stage env StageName.remediation_stage job_item = follow_remediation env job_item
follow_stage env StageName.dianna_stage job_item = follow_dianna env job_item
follow_stage env StageName.scan_stage job_item = pure tt
follow_stage env StageName.delivery_stage job_item = pure tt

abbrev is_done : StageUpdate → Bool
is_done StageUpdate.completed = true
is_done StageUpdate.skipped = true
is_done _ = false

unfoldable pub maybe_emit_follow_on_requests :
    Env → JobItemRecord → StageName → StageUpdateRequest → M (Unit {0})
maybe_emit_follow_on_requests env job_item stage_name payload =
    when (is_done payload.state) (follow_stage env stage_name job_item)
