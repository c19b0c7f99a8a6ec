-- ===== src/Workers/PolicyEngine/Build.antt =====
-- dsx_connect_ng/dsx_connect_ng/workers/policy_engine.py: the handoff decision of a policy decision, and back.
use dsx_connect.Prelude.{
  String, Bool, true, false, Option, none, some, List, [], ◌∷◌, if◌then◌else◌, ◌&&◌, ◌||◌, not,
  str_eq, or_else, is_empty, is_some,
}
use dsx_connect.Prelude.Dict.{get}
use dsx_connect.Prelude.Value.{Fields, no_fields, field, str, obj, get_field, has_field, has_fields}
use dsx_connect.Prelude.Text.{lower_strip}
use dsx_connect.Jobs.Models.{ContentSourceMode}
use dsx_connect.Jobs.Policy.{
  StageResultDeliveryMode, StageResultDeliveryPolicy, Applicability, is_requested,
  StageApplicabilityDecision, DeliveryDispatchDecision, ContentPreservationDecision,
  PolicyHandoffDecision, PolicyDecision,
}
use dsx_connect.Control.Config.{PolicyRuntimeConfig, PolicyDeliveryTargetsConfig}
use dsx_connect.Workers.PolicyEngine.Handoff.{
  Env, PolicyHandoffRequest, ◌>>=◌, extract_policy_runtime_config,
}
use dsx_connect.Workers.PolicyEngine.Plans.{is_one_of, effective_policy_verdict}

-- `_delivery_targets_from_decision`
abbrev pub delivery_targets_from_decision : PolicyDecision → List Fields
delivery_targets_from_decision decision =
    if has_fields decision.delivery_target then decision.delivery_target ∷ [] else []

-- `_delivery_policy_for_scan_verdict`
abbrev pub delivery_policy_for_scan_verdict : String → StageResultDeliveryPolicy
delivery_policy_for_scan_verdict verdict = record {
  scan =
      if is_one_of (lower_strip verdict) ("malicious" ∷ "suspicious" ∷ [])
      then StageResultDeliveryMode.malicious_only
      else StageResultDeliveryMode.all_results;
  remediation = StageResultDeliveryMode.all_outcomes;
  dianna = StageResultDeliveryMode.completed_only;
}

abbrev targets_configured : PolicyDeliveryTargetsConfig → List Fields → DeliveryDispatchDecision
targets_configured delivery fallback = record {
  request_now = false;
  wait_for_dianna = false;
  targets = or_else delivery.workflow_summary_targets fallback;
  scan_targets = or_else delivery.scan_targets fallback;
  remediation_targets = or_else delivery.remediation_targets fallback;
  dianna_targets = or_else delivery.dianna_targets fallback;
  workflow_summary_targets = or_else delivery.workflow_summary_targets fallback;
  scan_targets_configured = is_some delivery.scan_targets;
  remediation_targets_configured = is_some delivery.remediation_targets;
  dianna_targets_configured = is_some delivery.dianna_targets;
  workflow_summary_targets_configured = is_some delivery.workflow_summary_targets;
}

abbrev targets_fallback : List Fields → DeliveryDispatchDecision
targets_fallback fallback = record {
  request_now = false;
  wait_for_dianna = false;
  targets = fallback;
  scan_targets = fallback;
  remediation_targets = fallback;
  dianna_targets = fallback;
  workflow_summary_targets = fallback;
  scan_targets_configured = false;
  remediation_targets_configured = false;
  dianna_targets_configured = false;
  workflow_summary_targets_configured = false;
}

abbrev targets_for : Option PolicyDeliveryTargetsConfig → List Fields → DeliveryDispatchDecision
targets_for none fallback = targets_fallback fallback
targets_for (some delivery) fallback = targets_configured delivery fallback

-- `_targets_from_policy_config`
unfoldable pub targets_from_policy_config :
    PolicyRuntimeConfig → List Fields → DeliveryDispatchDecision
targets_from_policy_config c fallback = targets_for c.delivery fallback

abbrev is_none_mode : ContentSourceMode → Bool
is_none_mode ContentSourceMode.none = true
is_none_mode _ = false

abbrev preservation : Option ContentSourceMode → ContentPreservationDecision
preservation none = record {
  mode = ContentSourceMode.none;
  reason = some "no_preservation_policy";
  details = no_fields;
}
preservation (some mode) = record {
  mode = mode;
  reason = some (
      if is_none_mode mode
      then "no_later_stage_requires_content"
      else "policy_content_preservation");
  details = no_fields;
}

-- `_content_preservation_for_verdict`
unfoldable pub content_preservation_for_verdict :
    PolicyRuntimeConfig → String → ContentPreservationDecision
content_preservation_for_verdict c verdict =
    preservation (get (or_else c.content_preservation_mode_by_verdict []) verdict)

abbrev remediation_for : Fields → String → StageApplicabilityDecision
remediation_for plan effective =
    if has_fields plan
    then record {
      state = Applicability.requested;
      reason = none;
      details = field "remediation_plan" (obj plan) no_fields;
    }
    else record {
      state = Applicability.skipped;
      reason =
          some
            (if str_eq effective "benign" then "benign_verdict" else "remediation_not_configured");
      details = no_fields;
    }

abbrev dianna_for : Bool → String → String → StageApplicabilityDecision
dianna_for requested verdict effective =
    if requested
    then record { state = Applicability.requested; reason = none; details = no_fields }
    else record {
      state = Applicability.skipped;
      reason = some "not_auto_requested";
      details =
          if str_eq verdict ""
          then no_fields
          else field "verdict" (str verdict) (field "effective_verdict" (str effective) no_fields);
    }

-- `bool((summary targets or targets) and not plan and not wait)`
abbrev requests_now : DeliveryDispatchDecision → PolicyDecision → Bool
requests_now delivery decision =
    (not (is_empty delivery.workflow_summary_targets) || not (is_empty delivery.targets))
    && not (has_fields decision.remediation_plan)
    && not decision.wait_for_dianna_before_delivery

-- `delivery.model_copy(update=…)`
abbrev delivery_for : DeliveryDispatchDecision → PolicyDecision → DeliveryDispatchDecision
delivery_for delivery decision = record delivery {
  request_now = requests_now delivery decision;
  wait_for_dianna = decision.wait_for_dianna_before_delivery;
}

abbrev reason_trace : Option String → Fields
reason_trace none = no_fields
reason_trace (some reason) =
    if str_eq reason "" then no_fields else field "policy_reason" (str reason) no_fields

abbrev trace : String → String → Option String → Fields
trace verdict effective reason = field "engine" (str "stub_policy") (
    field "source" (str "policy_worker") (
      field "verdict" (str (lower_strip verdict))
        (field "effective_verdict" (str effective) (reason_trace reason))))

-- The decision, once the effective verdict is known.
unfoldable pub handoff_decision :
    PolicyRuntimeConfig → String → String → Option String → PolicyDecision → PolicyHandoffDecision
handoff_decision c verdict effective reason decision = record {
  policy_stage_result = record {
    policy_id = c.policy_id;
    decision_trace = trace verdict effective reason;
  };
  remediation = remediation_for decision.remediation_plan effective;
  dianna = dianna_for decision.request_dianna verdict effective;
  delivery =
      delivery_for (targets_from_policy_config c (delivery_targets_from_decision decision))
        decision;
  content_preservation = content_preservation_for_verdict c effective;
  result_delivery_policy =
      or_else c.result_delivery_policy (delivery_policy_for_scan_verdict effective);
}

-- `override or _effective_policy_verdict(…)`
abbrev pub overridden : Option String → String → String
overridden none v = v
overridden (some s) v = if str_eq s "" then v else s

-- `_build_stub_handoff_decision`
unfoldable pub build_stub_handoff_decision :
    Env
    → PolicyHandoffRequest
    → PolicyDecision
    → Option String
    → Option String
    → Option PolicyHandoffDecision
build_stub_handoff_decision env handoff decision override reason = do
  c ← extract_policy_runtime_config env handoff
  let verdict = handoff.scan_result.verdict
  some (
      handoff_decision c verdict (overridden override (effective_policy_verdict c verdict)) reason
        decision)

abbrev first_fields : List Fields → Fields
first_fields [] = no_fields
first_fields (t ∷ ts) = t

-- The targets of the summary, which fall back to all targets unless they are configured.
abbrev summary_targets : DeliveryDispatchDecision → List Fields
summary_targets d =
    if d.workflow_summary_targets_configured
    then d.workflow_summary_targets
    else if is_empty d.workflow_summary_targets
    then d.targets
    else d.workflow_summary_targets

-- `details.get("remediation_plan", {})`, which the decision must hold as a dict
abbrev plan_in : Fields → Option Fields
plan_in details =
    if has_field details "remediation_plan"
    then elim (get_field details "remediation_plan") [ obj plan ↦ some plan | _ ↦ none ]
    else some no_fields

-- `policy_decision_from_handoff_decision`
unfoldable pub policy_decision_from_handoff_decision : PolicyHandoffDecision → Option PolicyDecision
policy_decision_from_handoff_decision handoff = do
  plan ← plan_in handoff.remediation.details
  some (record {
    remediation_plan = plan;
    delivery_target = first_fields (summary_targets handoff.delivery);
    request_dianna = is_requested handoff.dianna.state;
    wait_for_dianna_before_delivery = handoff.delivery.wait_for_dianna;
    dianna_reason = "auto_on_malicious";
    dianna_options = handoff.dianna.details;
  })
