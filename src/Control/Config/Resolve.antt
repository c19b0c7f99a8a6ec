-- ===== src/Control/Config/Resolve.antt =====
-- control_plane/config_models.py: which policy wins.
use dsx_connect.Prelude.{◌≡◌, refl, Option, none, some}
use dsx_connect.Control.Config.{PolicyRuntimeConfig, default_policy, resolve, resolve_policies}

resolve_assoc {ℓ} :
    {A : Type ℓ} (a b c : Option A) → resolve a (resolve b c) ≡ resolve (resolve a b) c
resolve_assoc none b c = refl
resolve_assoc (some x) b c = refl

resolve-none {ℓ} : {A : Type ℓ} (a : Option A) → resolve a none ≡ a
resolve-none none = refl
resolve-none (some x) = refl

resolve_policies_assoc :
    (a b c : PolicyRuntimeConfig)
    → resolve_policies a (resolve_policies b c) ≡ resolve_policies (resolve_policies a b) c
unfolding resolve_policies
resolve_policies_assoc a b c i = record {
  policy_id = resolve_assoc a.policy_id b.policy_id c.policy_id i;
  auto_dianna_on_verdicts =
      resolve_assoc a.auto_dianna_on_verdicts b.auto_dianna_on_verdicts c.auto_dianna_on_verdicts i;
  wait_for_dianna_on_auto_request =
      resolve_assoc a.wait_for_dianna_on_auto_request b.wait_for_dianna_on_auto_request
        c.wait_for_dianna_on_auto_request i;
  malicious_verdict = resolve_assoc a.malicious_verdict b.malicious_verdict c.malicious_verdict i;
  verdict_actions = resolve_assoc a.verdict_actions b.verdict_actions c.verdict_actions i;
  non_compliant_treatment =
      resolve_assoc a.non_compliant_treatment b.non_compliant_treatment c.non_compliant_treatment i;
  not_scanned_treatment =
      resolve_assoc a.not_scanned_treatment b.not_scanned_treatment c.not_scanned_treatment i;
  outcome_triggers = resolve_assoc a.outcome_triggers b.outcome_triggers c.outcome_triggers i;
  non_compliance = resolve_assoc a.non_compliance b.non_compliance c.non_compliance i;
  not_scanned = resolve_assoc a.not_scanned b.not_scanned c.not_scanned i;
  remediation_plan_by_verdict =
      resolve_assoc a.remediation_plan_by_verdict b.remediation_plan_by_verdict
        c.remediation_plan_by_verdict i;
  result_delivery_policy =
      resolve_assoc a.result_delivery_policy b.result_delivery_policy c.result_delivery_policy i;
  delivery = resolve_assoc a.delivery b.delivery c.delivery i;
  content_preservation_mode_by_verdict =
      resolve_assoc a.content_preservation_mode_by_verdict b.content_preservation_mode_by_verdict
        c.content_preservation_mode_by_verdict i;
}

resolve_policies-default : (a : PolicyRuntimeConfig) → resolve_policies a default_policy ≡ a
unfolding resolve_policies
resolve_policies-default a i = record {
  policy_id = resolve-none a.policy_id i;
  auto_dianna_on_verdicts = resolve-none a.auto_dianna_on_verdicts i;
  wait_for_dianna_on_auto_request = resolve-none a.wait_for_dianna_on_auto_request i;
  malicious_verdict = resolve-none a.malicious_verdict i;
  verdict_actions = resolve-none a.verdict_actions i;
  non_compliant_treatment = resolve-none a.non_compliant_treatment i;
  not_scanned_treatment = resolve-none a.not_scanned_treatment i;
  outcome_triggers = resolve-none a.outcome_triggers i;
  non_compliance = resolve-none a.non_compliance i;
  not_scanned = resolve-none a.not_scanned i;
  remediation_plan_by_verdict = resolve-none a.remediation_plan_by_verdict i;
  result_delivery_policy = resolve-none a.result_delivery_policy i;
  delivery = resolve-none a.delivery i;
  content_preservation_mode_by_verdict = resolve-none a.content_preservation_mode_by_verdict i;
}

-- Policies layer: the policy without a setting changes nothing on either side, and of three layers
-- it does not matter which two are resolved first.
pub resolve_policies_layers :
    (a b c : PolicyRuntimeConfig)
    → (resolve_policies default_policy a ≡ a)
      × (resolve_policies a default_policy ≡ a)
      × (resolve_policies a (resolve_policies b c) ≡ resolve_policies (resolve_policies a b) c)
unfolding resolve_policies
resolve_policies_layers a b c = (refl, resolve_policies-default a, resolve_policies_assoc a b c)
