-- ===== src/Jobs/Service/Choices.antt =====
-- dsx_connect_ng/dsx_connect_ng/jobs/service.py: what a policy decision says of the
-- deliveries, and the reasons of skipped stages.
use dsx_connect.Prelude.{
  ℕ, String, Bool, true, false, Option, none, some, List, if◌then◌else◌, ◌||◌, str_eq,
}
use dsx_connect.Prelude.Value.{
  Fields, no_fields, field, str, obj, get_field, truthy, has_fields, or_empty,
}
use dsx_connect.Prelude.Text.{codes, normalized, strip, same_codes}
use dsx_connect.Jobs.Models.{JobItemRecord, is_failed, is_completed, is_terminal_stage}
use dsx_connect.Jobs.Policy.{
  PolicyHandoffDecision, StageResultDeliveryMode, StageApplicabilityDecision, is_requested,
}
use dsx_connect.Jobs.World.{Env, M, ◌>>=◌, pure}
use dsx_connect.Jobs.Service.Requests.{extract_policy_handoff_decision}

-- A `ScanResult` has a text as its verdict.
abbrev verdict_of : Fields → String
verdict_of result = elim (get_field result "verdict") [ str s ↦ s | _ ↦ "" ]

-- `((result or {}).get("verdict") or "").strip().lower()`
abbrev pub normalized_verdict : Fields → List ℕ
normalized_verdict result = normalized (verdict_of result)

-- `verdict in {"malicious", "suspicious"}`
abbrev pub threat_verdict : Fields → Bool
threat_verdict result =
    same_codes (normalized_verdict result) (codes "malicious")
    || same_codes (normalized_verdict result) (codes "suspicious")

abbrev benign_verdict : Fields → Bool
benign_verdict result = same_codes (normalized_verdict result) (codes "benign")

-- `_scan_result_should_be_delivered_for_handoff`
unfoldable pub scan_result_wanted : PolicyHandoffDecision → Fields → Bool
scan_result_wanted handoff result = elim handoff.result_delivery_policy.scan [
  | StageResultDeliveryMode.all_results ↦ true
  | StageResultDeliveryMode.malicious_only ↦ threat_verdict result
  | _ ↦ false
]

abbrev scan_wanted : Option PolicyHandoffDecision → JobItemRecord → Bool
scan_wanted none job_item = false
scan_wanted (some h) job_item = scan_result_wanted h (or_empty job_item.scan_stage.result)

abbrev remediation_wanted : Option PolicyHandoffDecision → JobItemRecord → Bool
remediation_wanted none job_item = false
remediation_wanted (some h) job_item = elim h.result_delivery_policy.remediation [
  | StageResultDeliveryMode.all_outcomes ↦ true
  | StageResultDeliveryMode.failures_only ↦ is_failed job_item.remediation_stage.state
  | _ ↦ false
]

abbrev dianna_wanted : Option PolicyHandoffDecision → JobItemRecord → Bool
dianna_wanted none job_item = false
dianna_wanted (some h) job_item = elim h.result_delivery_policy.dianna [
  | StageResultDeliveryMode.completed_only ↦ is_completed job_item.dianna_stage.state
  | StageResultDeliveryMode.all_outcomes ↦ is_terminal_stage job_item.dianna_stage.state
  | _ ↦ false
]

-- `_scan_result_should_be_delivered` and its two siblings
unfoldable pub scan_result_should_be_delivered : Env → JobItemRecord → M Bool
scan_result_should_be_delivered env job_item = do
  handoff ← extract_policy_handoff_decision env job_item
  pure (scan_wanted handoff job_item)

unfoldable pub remediation_result_should_be_delivered : Env → JobItemRecord → M Bool
remediation_result_should_be_delivered env job_item = do
  handoff ← extract_policy_handoff_decision env job_item
  pure (remediation_wanted handoff job_item)

unfoldable pub dianna_result_should_be_delivered : Env → JobItemRecord → M Bool
dianna_result_should_be_delivered env job_item = do
  handoff ← extract_policy_handoff_decision env job_item
  pure (dianna_wanted handoff job_item)

abbrev pub reason_fields : String → Fields
reason_fields reason = field "reason" (str reason) no_fields

abbrev nonempty_text : Option String → Option String
nonempty_text none = none
nonempty_text (some s) = if str_eq s "" then none else some s

-- The reason of a decision with its details, if there is one.
abbrev decision_reason : StageApplicabilityDecision → Option Fields
decision_reason d = elim (nonempty_text d.reason) [
  | none ↦ none
  | some reason ↦ some (
      field "reason" (str reason)
        (if has_fields d.details then field "details" (obj d.details) no_fields else no_fields))
]

-- `{"reason": "not_auto_requested"}`, with the stripped verdict where it is not empty
abbrev not_requested : Fields → Fields
not_requested result =
    let v : String = strip (verdict_of result) in
    field "reason" (str "not_auto_requested") (
      if str_eq v ""
      then no_fields
      else field "details" (obj (field "verdict" (str v) no_fields)) no_fields)

-- `_build_dianna_skipped_result`, given the handoff
unfoldable pub dianna_skipped_result : Option PolicyHandoffDecision → Fields → Fields
dianna_skipped_result none result = not_requested result
dianna_skipped_result (some h) result = elim (decision_reason h.dianna) [
  | none ↦ not_requested result
  | some r ↦ r
]

abbrev handoff_requests_remediation : Option PolicyHandoffDecision → Bool
handoff_requests_remediation none = false
handoff_requests_remediation (some h) = is_requested h.remediation.state

-- `_build_remediation_skipped_result`
unfoldable pub remediation_skipped_result : Option PolicyHandoffDecision → JobItemRecord → Fields
remediation_skipped_result handoff job_item =
    let policy_result : Fields = or_empty job_item.policy_stage.result in
    if handoff_requests_remediation handoff
    then reason_fields "remediation_not_executed"
    else if truthy (get_field policy_result "remediation_plan")
        || truthy (get_field policy_result "remediationPlan")
    then reason_fields "remediation_not_executed"
    else if benign_verdict (or_empty job_item.scan_stage.result)
    then reason_fields "benign_verdict"
    else reason_fields "remediation_not_configured"

-- `_build_remediation_skipped_result_from_handoff`
unfoldable pub remediation_skipped_from_handoff : PolicyHandoffDecision → Fields → Fields
remediation_skipped_from_handoff handoff result = elim (nonempty_text handoff.remediation.reason) [
  | some reason ↦ reason_fields reason
  | none ↦
      if benign_verdict result
      then reason_fields "benign_verdict"
      else reason_fields "remediation_not_configured"
]
