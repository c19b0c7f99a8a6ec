-- ===== src/Workers/PolicyEngine/Coherent.antt =====
-- workers/policy_engine.py: what holds of every decision of the engine, and the way back to a policy decision.
use dsx_connect.Prelude.{
  String, ◌≡◌, refl, Bool, true, false, Option, none, some, ◌&&◌, ◌||◌, not, arith, is_empty,
  if◌then◌else◌, subst,
}
use dsx_connect.Prelude.Value.{
  Fields, no_fields, obj, truthy, has_fields, has_field, get_field, field,
}
use dsx_connect.Jobs.Policy.{Applicability, is_requested, PolicyHandoffDecision, PolicyDecision}
use dsx_connect.Jobs.Service.FollowOn.{planned}
use dsx_connect.Control.Config.{PolicyRuntimeConfig}
use dsx_connect.Workers.PolicyEngine.FileTypes.{non_compliance_match}
use dsx_connect.Workers.PolicyEngine.Handoff.{
  Env, PolicyHandoffRequest, ◌>>=◌, extract_policy_runtime_config,
}
use dsx_connect.Workers.PolicyEngine.Build.{
  handoff_decision, build_stub_handoff_decision, targets_from_policy_config,
}
use dsx_connect.Workers.PolicyEngine.{
  stub_policy_engine, decide, follow_given, follow_policy, either_field, policy_verdict,
  policy_reason,
}

abbrev pub is_undecided : Applicability → Bool
is_undecided Applicability.pending = true
is_undecided _ = false

-- The stages are decided, the plan is there exactly when it is asked for, and the summary goes out at
-- once exactly when there is a target and nothing to wait for.
pub record IsCoherent (d : PolicyHandoffDecision) : Type 0 where
  pub decided : (is_undecided d.remediation.state || is_undecided d.dianna.state) ≡ false
  pub has_plan : is_requested d.remediation.state ≡ truthy (planned d.remediation.details)
  pub at_once : d.delivery.request_now ≡ (
      not (is_requested d.remediation.state)
      && not d.delivery.wait_for_dianna
      && not (is_empty d.delivery.workflow_summary_targets && is_empty d.delivery.targets))

truthy_obj : (d : Fields) → truthy (obj d) ≡ has_fields d
truthy_obj no_fields = refl
truthy_obj (field k v d) = refl

pub handoff_decision-IsCoherent :
    (c : PolicyRuntimeConfig) (verdict effective : String) (reason : Option String)
    (decision : PolicyDecision)
    → IsCoherent (handoff_decision c verdict effective reason decision)
unfolding handoff_decision get_field has_field targets_from_policy_config
handoff_decision-IsCoherent c verdict effective reason decision = record {
  decided = ground arith;
  has_plan = ground (arith, truthy_obj decision.remediation_plan);
  at_once = ground arith;
}

-- What an engine decides satisfies `P`, if it does not raise.
abbrev Decides : (PolicyHandoffDecision → Type 0) → Option PolicyHandoffDecision → Type 0
Decides P none = Unit
Decides P (some d) = P d

Decides-bind :
    {A : Type 0} (P : PolicyHandoffDecision → Type 0) (o : Option A)
    (f : A → Option PolicyHandoffDecision)
    → ((a : A) → Decides P (f a))
    → Decides P (o >>= f)
Decides-bind P none f h = tt
Decides-bind P (some a) f h = h a

Decides-if :
    (P : PolicyHandoffDecision → Type 0) (b : Bool) (m n : Option PolicyHandoffDecision)
    → Decides P m
    → Decides P n
    → Decides P (if b then m else n)
Decides-if P true m n hm hn = hm
Decides-if P false m n hm hn = hn

build-Decides :
    (env : Env) (handoff : PolicyHandoffRequest) (decision : PolicyDecision)
    (override reason : Option String)
    → Decides IsCoherent (build_stub_handoff_decision env handoff decision override reason)
unfolding build_stub_handoff_decision
build-Decides env handoff decision override reason =
    Decides-bind IsCoherent (extract_policy_runtime_config env handoff) _
      (λ c. handoff_decision-IsCoherent c handoff.scan_result.verdict _ reason decision)

given-Decides :
    (env : Env) (handoff : PolicyHandoffRequest) → Decides IsCoherent (follow_given env handoff)
unfolding follow_given
given-Decides env handoff =
    Decides-bind IsCoherent
      (env.read_decision (either_field handoff.item_payload "policyDecision" "policy_decision")) _
      (λ given. build-Decides env handoff given none none)

policy-Decides :
    (env : Env) (c : PolicyRuntimeConfig) (handoff : PolicyHandoffRequest) (reason : Option String)
    → Decides IsCoherent (follow_policy env c handoff reason)
unfolding follow_policy
policy-Decides env c handoff reason =
    Decides-bind IsCoherent (decide env c handoff reason) _ (λ decision.
      build-Decides env handoff decision (some (policy_verdict env c handoff reason))
        (policy_reason env c handoff.scan_result.verdict reason))

engine-Decides :
    (env : Env) (handoff : PolicyHandoffRequest)
    → Decides IsCoherent (stub_policy_engine env handoff)
unfolding stub_policy_engine
engine-Decides env handoff =
    Decides-bind IsCoherent (extract_policy_runtime_config env handoff) _ (λ c.
      Decides-bind IsCoherent (non_compliance_match env c handoff) _ (λ reason.
        Decides-if IsCoherent
          (truthy (either_field handoff.item_payload "policyDecision" "policy_decision"))
          (follow_given env handoff) (follow_policy env c handoff reason)
          (given-Decides env handoff) (policy-Decides env c handoff reason)))

-- Every decision of the policy engine is coherent: the remediation and the analysis are each asked
-- for or skipped; the remediation is asked for exactly when there is a plan as the job service looks
-- for it; and the summary is requested at once exactly when it has a target, no remediation is asked
-- for and nothing waits for the analysis.
pub stub_policy_engine-IsCoherent :
    (env : Env) (handoff : PolicyHandoffRequest) (d : PolicyHandoffDecision)
    → stub_policy_engine env handoff ≡ some d
    → IsCoherent d
stub_policy_engine-IsCoherent env handoff d e =
    subst (Decides IsCoherent) e (engine-Decides env handoff)
