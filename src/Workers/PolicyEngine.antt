-- ===== src/Workers/PolicyEngine.antt =====
-- dsx_connect_ng/dsx_connect_ng/workers/policy_engine.py: the policy engine.
pub mod Handoff
pub mod Plans
pub mod FileTypes
pub mod Build
pub mod Coherent
pub mod Malicious
pub mod FileTypeName
use Prim.Native.String.{◌++◌ as str_append}
use dsx_connect.Prelude.{
  String, Bool, true, false, Option, none, some, [], if◌then◌else◌, ◌&&◌, ◌||◌, not, str_eq,
  or_else, is_some,
}
use dsx_connect.Prelude.Dict.{get}
use dsx_connect.Prelude.Value.{Fields, Value, no_fields, obj, get_field, or_value, truthy}
use dsx_connect.Jobs.Policy.{PolicyDecision, PolicyHandoffDecision}
use dsx_connect.Control.Config.{PolicyRuntimeConfig}
use dsx_connect.Workers.PolicyEngine.Handoff.{
  Env, PolicyHandoffRequest, ◌>>=◌, opt_dict, extract_policy_runtime_config,
}
use dsx_connect.Workers.PolicyEngine.Plans.{
  is_one_of, is_not_scanned, effective_policy_verdict, configured_action,
  remediation_plan_for_action, default_remediation_plan_for_verdict,
}
use dsx_connect.Workers.PolicyEngine.FileTypes.{non_compliance_match}
use dsx_connect.Workers.PolicyEngine.Build.{
  build_stub_handoff_decision, policy_decision_from_handoff_decision,
}

-- `d.get(camel) or d.get(snake)`
abbrev pub either_field : Fields → String → String → Value
either_field d camel snake = or_value (get_field d camel) (get_field d snake)

-- The scan is not one, and the policy names an action for that.
abbrev acts_on_not_scanned : Env → PolicyRuntimeConfig → String → Bool
acts_on_not_scanned env c verdict =
    is_not_scanned verdict && not (str_eq (configured_action env c "not_scanned") "detect_only")

-- A blocked file type was found (a token is never empty), and the policy names an action for it.
abbrev acts_on_blocked : Env → PolicyRuntimeConfig → Option String → Bool
acts_on_blocked env c reason =
    is_some reason && not (str_eq (configured_action env c "non_compliant") "detect_only")

-- The verdict after the two tests of `stub_policy_engine`.
unfoldable pub policy_verdict :
    Env → PolicyRuntimeConfig → PolicyHandoffRequest → Option String → String
policy_verdict env c handoff reason =
    let verdict : String = handoff.scan_result.verdict in
    if acts_on_blocked env c reason || acts_on_not_scanned env c verdict
    then "malicious"
    else effective_policy_verdict c verdict

-- `if not plan and test: plan = …`
abbrev or_plan : Bool → Option Fields → Value → Option Value
or_plan test later plan =
    if not (truthy plan) && test then (do p ← later; some (obj p)) else some plan

-- `if not plan: plan = …`, and what `PolicyDecision` accepts as a plan.
abbrev or_default : Fields → Value → Option Fields
or_default d (obj plan) = if truthy (obj plan) then some plan else some d
or_default d v = if truthy v then none else some d

-- The plan of the item, or the one of the configuration for the verdict.
abbrev pub given_plan : PolicyRuntimeConfig → Fields → String → Value
given_plan c item_payload effective =
    or_value
      (or_value (either_field item_payload "remediationPlan" "remediation_plan")
        (opt_dict (get (or_else c.remediation_plan_by_verdict []) effective)))
      (obj no_fields)

unfoldable pub chosen_plan :
    Env → PolicyRuntimeConfig → PolicyHandoffRequest → Option String → String → Option Fields
chosen_plan env c handoff reason effective = do
  blocked_plan ←
      or_plan (is_some reason)
        (remediation_plan_for_action env c (configured_action env c "non_compliant")
          "non_compliance")
        (given_plan c handoff.item_payload effective)
  plan ←
      or_plan (is_not_scanned handoff.scan_result.verdict)
        (remediation_plan_for_action env c (configured_action env c "not_scanned") "non_compliance")
        blocked_plan
  or_default (default_remediation_plan_for_verdict c effective) plan

abbrev asks_dianna : PolicyRuntimeConfig → Fields → String → Bool
asks_dianna c item_payload effective =
    truthy (either_field item_payload "requestDianna" "request_dianna")
    || is_one_of effective (or_else c.auto_dianna_on_verdicts [])

abbrev waits_dianna : PolicyRuntimeConfig → Fields → Bool → Bool
waits_dianna c item_payload requested =
    truthy
      (either_field item_payload "waitForDiannaBeforeDelivery" "wait_for_dianna_before_delivery")
    || requested && or_else c.wait_for_dianna_on_auto_request false

-- `get(…) or get(…) or {}` as the target of a `PolicyDecision`
abbrev target_field : Value → Option Fields
target_field (obj d) = some d
target_field v = if truthy v then none else some no_fields

-- The decision that is not given with the item.
unfoldable pub decide :
    Env → PolicyRuntimeConfig → PolicyHandoffRequest → Option String → Option PolicyDecision
decide env c handoff reason = do
  let effective = policy_verdict env c handoff reason
  plan ← chosen_plan env c handoff reason effective
  target ← target_field (either_field handoff.item_payload "deliveryTarget" "delivery_target")
  let requested = asks_dianna c handoff.item_payload effective
  some (record {
    remediation_plan = plan;
    delivery_target = target;
    request_dianna = requested;
    wait_for_dianna_before_delivery = waits_dianna c handoff.item_payload requested;
    dianna_reason = "auto_on_malicious";
    dianna_options = no_fields;
  })

abbrev pub policy_reason : Env → PolicyRuntimeConfig → String → Option String → Option String
policy_reason env c verdict (some reason) = some (str_append "blocked_file_type:" reason)
policy_reason env c verdict none =
    if acts_on_not_scanned env c verdict then some "not_scanned_action" else none

-- The decision that is given with the item.
unfoldable pub follow_given : Env → PolicyHandoffRequest → Option PolicyHandoffDecision
follow_given env handoff = do
  given ← env.read_decision (either_field handoff.item_payload "policyDecision" "policy_decision")
  build_stub_handoff_decision env handoff given none none

unfoldable pub follow_policy :
    Env → PolicyRuntimeConfig → PolicyHandoffRequest → Option String → Option PolicyHandoffDecision
follow_policy env c handoff reason = do
  decision ← decide env c handoff reason
  build_stub_handoff_decision env handoff decision (some (policy_verdict env c handoff reason))
      (policy_reason env c handoff.scan_result.verdict reason)

-- `stub_policy_engine`
unfoldable pub stub_policy_engine : Env → PolicyHandoffRequest → Option PolicyHandoffDecision
stub_policy_engine env handoff = do
  c ← extract_policy_runtime_config env handoff
  reason ← non_compliance_match env c handoff
  if truthy (either_field handoff.item_payload "policyDecision" "policy_decision")
      then follow_given env handoff
      else follow_policy env c handoff reason

-- `stub_policy_evaluator`, from the handoff on
unfoldable pub stub_policy_evaluator : Env → PolicyHandoffRequest → Option PolicyDecision
stub_policy_evaluator env handoff = do
  decision ← stub_policy_engine env handoff
  policy_decision_from_handoff_decision decision
