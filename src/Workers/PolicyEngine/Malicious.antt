-- ===== src/Workers/PolicyEngine/Malicious.antt =====
-- workers/policy_engine.py: which objects the engine orders a remediation for.
use dsx_connect.Prelude.{
  String, ◌≡◌, refl, sym, subst, Bool, true, false, Option, none, some, ◌&&◌, ◌||◌, arith,
  if◌then◌else◌, str_eq, eq_iff, is_some, Bool-cases, inl, inr,
}
use dsx_connect.Prelude.Value.{
  Fields, Value, null, str, obj, no_fields, truthy, get_field, has_field, as_fields, has_fields,
}
use dsx_connect.Prelude.Dict.{get}
use dsx_connect.Prelude.Text.{lower_strip}
use dsx_connect.Jobs.Policy.{PolicyHandoffDecision, PolicyDecision, is_requested}
use dsx_connect.Jobs.Service.FollowOn.{planned}
use dsx_connect.Control.Config.{
  PolicyRuntimeConfig, MaliciousVerdictPolicyConfig, RemediationAction, FallbackTreatment,
}
use dsx_connect.Workers.PolicyEngine.Handoff.{
  Env, PolicyHandoffRequest, extract_policy_runtime_config,
}
use dsx_connect.Workers.PolicyEngine.Plans.{
  is_one_of, is_not_scanned, effective_text, treated_as, configured_action,
  default_remediation_plan_for_verdict, remediation_plan_for_action, not_scanned_texts,
}
use dsx_connect.Workers.PolicyEngine.FileTypes.{non_compliance_match}
use dsx_connect.Workers.PolicyEngine.Build.{handoff_decision, build_stub_handoff_decision}
use dsx_connect.Workers.PolicyEngine.{
  stub_policy_engine, follow_policy, decide, chosen_plan, policy_verdict, either_field,
  target_field, given_plan,
}

-- The item comes without a decision or a plan of its own, and the policy without plans by verdict. The
-- delivery target of the item is missing, empty or a dict: any other raises.
pub record IsPlain (env : Env) (c : PolicyRuntimeConfig) (handoff : PolicyHandoffRequest)
    : Type 0 where
  pub config : extract_policy_runtime_config env handoff ≡ some c
  pub no_decision :
      truthy (either_field handoff.item_payload "policyDecision" "policy_decision") ≡ false
  pub no_plan :
      truthy (either_field handoff.item_payload "remediationPlan" "remediation_plan") ≡ false
  pub no_plans : c.remediation_plan_by_verdict ≡ none
  pub has_target :
      is_some (target_field (either_field handoff.item_payload "deliveryTarget" "delivery_target"))
      ≡ true

-- The action of the plan that a decision asks for; `null` where it asks for none.
abbrev pub ordered : Option PolicyHandoffDecision → Option Value
ordered none = none
ordered (some d) = some (
    if is_requested d.remediation.state
    then get_field (as_fields (planned d.remediation.details)) "action"
    else null)

abbrev pub own_action : Option MaliciousVerdictPolicyConfig → Value
own_action none = null
own_action (some p) = elim p.action [
  | RemediationAction.detect_only ↦ null
  | RemediationAction.delete ↦ str "delete"
  | RemediationAction.tag_only ↦ str "tag_only"
  | RemediationAction.quarantine ↦ str "quarantine"
]

abbrev treats_as_malicious : Option FallbackTreatment → Bool
treats_as_malicious (some FallbackTreatment.treat_as_malicious) = true
treats_as_malicious _ = false

-- The verdicts that count as malicious: that one, and a non-compliant one where the policy says so.
abbrev counted : PolicyRuntimeConfig → String → Bool
counted c n =
    str_eq n "malicious"
    || (str_eq n "non-compliant" || str_eq n "non_compliant" || str_eq n "noncompliant")
      && treats_as_malicious c.non_compliant_treatment

abbrev pub counts_malicious : PolicyRuntimeConfig → String → Bool
counts_malicious c verdict = counted c (lower_strip verdict)

-- The actions other than `detect_only` that mean that nothing is done.
abbrev pub is_idle : String → Bool
is_idle action = str_eq (lower_strip action) "nothing" || str_eq (lower_strip action) "none"

str_eq-if :
    (b : Bool) (s t k : String)
    → str_eq (if b then s else t) k ≡ (if b then str_eq s k else str_eq t k)
str_eq-if true s t k = refl
str_eq-if false s t k = refl

treated-malicious :
    (t : Option FallbackTreatment) → str_eq (treated_as t) "malicious" ≡ treats_as_malicious t
treated-malicious none = refl
treated-malicious (some FallbackTreatment.treat_as_malicious) = refl
treated-malicious (some FallbackTreatment.treat_as_benign) = refl

effective_text-malicious :
    (c : PolicyRuntimeConfig) (n : String)
    → is_one_of n not_scanned_texts ≡ false
    → str_eq (effective_text c n) "malicious" ≡ counted c n
unfolding effective_text
effective_text-malicious c n scanned = elim (Bool-cases (str_eq n "suspicious")) [
  | inl e ↦
      subst (λ m. str_eq (effective_text c m) "malicious" ≡ counted c m)
        (sym ((eq_iff n "suspicious").0 e)) refl
  | inr e ↦ elim (Bool-cases (str_eq n "benign")) [
    | inl e' ↦
        subst (λ m. str_eq (effective_text c m) "malicious" ≡ counted c m)
          (sym ((eq_iff n "benign").0 e')) refl
    | inr e' ↦ simp (str_eq-if, treated-malicious) (ground arith)
  ]
]

handoff-ordered :
    (c : PolicyRuntimeConfig) (verdict effective : String) (reason : Option String)
    (decision : PolicyDecision)
    → ordered (some (handoff_decision c verdict effective reason decision))
      ≡ some (
          if has_fields decision.remediation_plan
          then get_field decision.remediation_plan "action"
          else null)
unfolding handoff_decision get_field has_field
handoff-ordered c verdict effective reason decision = ground arith

-- The engine goes by the plan that it chooses.
engine-ordered :
    (env : Env) (c : PolicyRuntimeConfig) (handoff : PolicyHandoffRequest) (reason : Option String)
    (plan : Fields)
    → IsPlain env c handoff
    → non_compliance_match env c handoff ≡ some reason
    → chosen_plan env c handoff reason (policy_verdict env c handoff reason) ≡ some plan
    → ordered (stub_policy_engine env handoff)
      ≡ some (if has_fields plan then get_field plan "action" else null)
unfolding stub_policy_engine follow_policy decide build_stub_handoff_decision
engine-ordered env c handoff reason plan h found chosen =
    grind (arith, handoff-ordered, h.config, h.no_decision, h.has_target)

plain-given_plan :
    (env : Env) (c : PolicyRuntimeConfig) (handoff : PolicyHandoffRequest) (effective : String)
    → IsPlain env c handoff
    → given_plan c handoff.item_payload effective ≡ obj no_fields
unfolding get
plain-given_plan env c handoff effective h = ground (arith, h.no_plan, h.no_plans)

-- Without a plan of its own the item gets the plan for the verdict.
plain-chosen :
    (env : Env) (c : PolicyRuntimeConfig) (handoff : PolicyHandoffRequest) (effective : String)
    → IsPlain env c handoff
    → is_not_scanned handoff.scan_result.verdict ≡ false
    → chosen_plan env c handoff none effective
      ≡ some (default_remediation_plan_for_verdict c effective)
unfolding chosen_plan
plain-chosen env c handoff effective h scanned =
    ground (arith, plain-given_plan env c handoff effective h)

idle-plan :
    (env : Env) (c : PolicyRuntimeConfig) (action source : String)
    → is_idle action ≡ true
    → remediation_plan_for_action env c action source ≡ some no_fields
unfolding remediation_plan_for_action lower_strip
idle-plan env c action source idle = elim (Bool-cases (str_eq action "")) [
  | inl e ↦
      let impossible : false ≡ true = subst (λ a. is_idle a ≡ true) ((eq_iff action "").0 e) idle in
      cc
  | inr e ↦ ground arith
]

-- The same where a blocked file type is found, and its action means that nothing is done.
idle-chosen :
    (env : Env) (c : PolicyRuntimeConfig) (handoff : PolicyHandoffRequest) (r effective : String)
    → IsPlain env c handoff
    → is_not_scanned handoff.scan_result.verdict ≡ false
    → is_idle (configured_action env c "non_compliant") ≡ true
    → chosen_plan env c handoff (some r) effective
      ≡ some (default_remediation_plan_for_verdict c effective)
unfolding chosen_plan
idle-chosen env c handoff r effective h scanned idle = ground (
  arith,
  plain-given_plan env c handoff effective h,
  idle-plan env c (configured_action env c "non_compliant") "non_compliance" idle,
)

default_plan-ordered :
    (c : PolicyRuntimeConfig) (effective : String)
    → (if has_fields (default_remediation_plan_for_verdict c effective)
        then get_field (default_remediation_plan_for_verdict c effective) "action"
        else null)
      ≡ (if str_eq effective "malicious" then own_action c.malicious_verdict else null)
unfolding default_remediation_plan_for_verdict get_field
default_plan-ordered c effective = ground arith

plain-policy_verdict :
    (env : Env) (c : PolicyRuntimeConfig) (handoff : PolicyHandoffRequest)
    → is_not_scanned handoff.scan_result.verdict ≡ false
    → policy_verdict env c handoff none ≡ effective_text c (lower_strip handoff.scan_result.verdict)
unfolding policy_verdict
plain-policy_verdict env c handoff scanned = ground arith

-- An item with a verdict other than not scanned, without a decision or a plan of its own, and with a
-- delivery target that is missing, empty or a dict; under a policy without plans by verdict, in
-- which the search for blocked file types returns that the item has none. The engine then decides,
-- and it orders the action of the policy for malicious objects when the verdict is malicious, or is
-- non-compliant and treated as malicious. For every other verdict, and where the action is to
-- detect only, it orders nothing.
pub remediation_exactly :
    (env : Env) (c : PolicyRuntimeConfig) (handoff : PolicyHandoffRequest)
    → IsPlain env c handoff
    → non_compliance_match env c handoff ≡ some none
    → is_not_scanned handoff.scan_result.verdict ≡ false
    → ordered (stub_policy_engine env handoff)
      ≡ some (
          if counts_malicious c handoff.scan_result.verdict
          then own_action c.malicious_verdict
          else null)
remediation_exactly env c handoff h unblocked scanned = grind (
  arith,
  engine-ordered env c handoff none
      (default_remediation_plan_for_verdict c (policy_verdict env c handoff none)) h unblocked
      (plain-chosen env c handoff (policy_verdict env c handoff none) h scanned),
  default_plan-ordered c (policy_verdict env c handoff none),
  plain-policy_verdict env c handoff scanned,
  effective_text-malicious c (lower_strip handoff.scan_result.verdict) scanned,
)

idle-verdict :
    (env : Env) (c : PolicyRuntimeConfig) (handoff : PolicyHandoffRequest) (r : String)
    → str_eq (configured_action env c "non_compliant") "detect_only" ≡ false
    → policy_verdict env c handoff (some r) ≡ "malicious"
unfolding policy_verdict
idle-verdict env c handoff r acts = ground arith

-- An item of a blocked file type, without a decision or a plan of its own, and with a delivery target
-- that is missing, empty or a dict; under a policy without plans by verdict whose action for
-- blocked types is spelled as nothing or none. For every verdict of the scan but those that say not
-- scanned, benign included, the engine orders the action that the policy has for malicious objects.
pub idle_action_remediates :
    (env : Env) (c : PolicyRuntimeConfig) (handoff : PolicyHandoffRequest) (r : String)
    → IsPlain env c handoff
    → is_not_scanned handoff.scan_result.verdict ≡ false
    → non_compliance_match env c handoff ≡ some (some r)
    → is_idle (configured_action env c "non_compliant") ≡ true
    → str_eq (configured_action env c "non_compliant") "detect_only" ≡ false
    → ordered (stub_policy_engine env handoff) ≡ some (own_action c.malicious_verdict)
idle_action_remediates env c handoff r h scanned blocked idle acts = grind (
  arith,
  engine-ordered env c handoff (some r) (default_remediation_plan_for_verdict c "malicious") h
      blocked
      (rw (idle-verdict env c handoff r acts)
        (idle-chosen env c handoff r "malicious" h scanned idle)),
  default_plan-ordered c "malicious",
)
