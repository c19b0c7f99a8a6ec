-- ===== src/Workers/Remediation/Plan.antt =====
-- workers/policy_engine.py and jobs/contracts.py: the plan of the policy engine as a connector reads it.
use dsx_connect.Prelude.{◌≡◌, refl, Option, none, some, arith, if◌then◌else◌, Bool}
use dsx_connect.Prelude.Value.{get_field, put_field, merge}
use dsx_connect.Prelude.Text.{lower_strip}
use dsx_connect.Control.Config.{
  PolicyRuntimeConfig, MaliciousVerdictPolicyConfig, RemediationAction, QuarantineTargetConfig,
}
use dsx_connect.Workers.PolicyEngine.Handoff.{Env}
use dsx_connect.Workers.PolicyEngine.Plans.{default_remediation_plan_for_verdict, plan_of_policy}
use dsx_connect.Workers.Remediation.Request.{
  RemediationRequested, ConnectorActionRequest, ItemAction, as_connector_remediation_request,
  as_connector_action_request, ConnectorRemediationRequest, request_for_plan,
}

-- The action of the connector for an action of the policy.
abbrev pub wanted : MaliciousVerdictPolicyConfig → ItemAction
wanted p = elim p.action [
  | RemediationAction.detect_only ↦ ItemAction.nothing
  | RemediationAction.delete ↦ ItemAction.delete
  | RemediationAction.tag_only ↦ ItemAction.tag
  | RemediationAction.quarantine ↦
      if p.tag_on_quarantine then ItemAction.movetag else ItemAction.move
]

abbrev pub asked_action : Option ConnectorActionRequest → Option ItemAction
asked_action none = none
asked_action (some r) = some r.item_action

abbrev request_action : Option ConnectorRemediationRequest → Option ItemAction
request_action none = none
request_action (some r) = some r.action

plan_asks :
    (env : Env) (request : RemediationRequested) (a : RemediationAction)
    (t : Option QuarantineTargetConfig) (d q : Bool)
    → request_action (
        request_for_plan env request (
          plan_of_policy (record {
            action = a;
            quarantine_target = t;
            tag_on_detect = d;
            tag_on_quarantine = q;
          })))
      ≡ some (
          wanted (record {
            action = a;
            quarantine_target = t;
            tag_on_detect = d;
            tag_on_quarantine = q;
          }))
unfolding request_for_plan get_field put_field merge lower_strip
plan_asks env request RemediationAction.detect_only t d q = refl
plan_asks env request RemediationAction.delete t d q = refl
plan_asks env request RemediationAction.tag_only t d q = refl
plan_asks env request RemediationAction.quarantine none d q = ground arith
plan_asks env request RemediationAction.quarantine (some t) d q = ground arith

asked_request :
    (env : Env) (request : RemediationRequested)
    → asked_action (as_connector_action_request env request)
      ≡ request_action (request_for_plan env request request.remediation_plan)
unfolding as_connector_action_request as_connector_remediation_request
asked_request env request = ground arith

-- A remediation message with the plan that the policy engine makes for a malicious object asks the
-- connector for the action of the policy: nothing to detect only, a deletion, a tag, or a move, with
-- a tag where the policy tags quarantined objects. The reading of the plan never fails.
pub plan_reaches_connector :
    (env : Env) (c : PolicyRuntimeConfig) (p : MaliciousVerdictPolicyConfig)
    (request : RemediationRequested)
    → c.malicious_verdict ≡ some p
    → request.remediation_plan ≡ default_remediation_plan_for_verdict c "malicious"
    → asked_action (as_connector_action_request env request) ≡ some (wanted p)
unfolding default_remediation_plan_for_verdict request_for_plan
plan_reaches_connector env c p request hc hp =
    rw (asked_request env request, hp, hc)
      (plan_asks env request p.action p.quarantine_target p.tag_on_detect p.tag_on_quarantine)
