-- ===== src/Workers/Examples/Policy.antt =====
-- The policy engine on one object.
use dsx_connect.Prelude.{◌≡◌, refl, true, false, none, some, String}
use dsx_connect.Prelude.Dict.{get}
use dsx_connect.Prelude.Value.{
  Fields, no_fields, no_items, field, str, arr, item, get_field, has_field,
}
use dsx_connect.Prelude.Text.{lower_strip, lower_text, occurs_in, ends_with}
use dsx_connect.Jobs.Models.{default_content_source}
use dsx_connect.Jobs.Policy.{PolicyDecision, PolicyHandoffDecision}
use dsx_connect.Control.Config.{
  PolicyRuntimeConfig, MaliciousVerdictPolicyConfig, RemediationAction, default_policy,
  resolve_policy_runtime_config, resolve_policies, parse_integration_runtime_config,
  parse_policy_runtime_config,
}
use dsx_connect.Workers.PolicyEngine.Handoff.{
  Env, PolicyHandoffRequest, extract_policy_runtime_config, iterated,
}
use dsx_connect.Workers.PolicyEngine.Plans.{
  effective_text, configured_action, default_remediation_plan_for_verdict,
}
use dsx_connect.Workers.PolicyEngine.FileTypes.{non_compliance_match, file_type_tokens, least}
use dsx_connect.Workers.PolicyEngine.Build.{build_stub_handoff_decision, handoff_decision}
use dsx_connect.Workers.PolicyEngine.{
  stub_policy_engine, follow_policy, decide, policy_verdict, chosen_plan,
}
use dsx_connect.Workers.PolicyEngine.Coherent.{IsCoherent, stub_policy_engine-IsCoherent}
use dsx_connect.Workers.PolicyEngine.Malicious.{
  IsPlain, ordered, remediation_exactly, idle_action_remediates,
}

abbrev pub malicious_policy : MaliciousVerdictPolicyConfig
malicious_policy = record {
  action = RemediationAction.delete;
  quarantine_target = none;
  tag_on_detect = true;
  tag_on_quarantine = true;
}

abbrev pub policy : PolicyRuntimeConfig
policy = record default_policy { malicious_verdict = some malicious_policy }

-- Executables are blocked, with an action that means nothing.
abbrev pub section : Fields
section =
    field "action" (str "none")
      (field "blocked_file_types" (arr (item (str "executables") no_items)) no_fields)

abbrev blocking : PolicyRuntimeConfig
blocking = record policy { non_compliance = some section }

abbrev pub env_of : PolicyRuntimeConfig → Env
env_of c = record {
  parser = record {
    integration = λ v. some (record {
      reader_proxy = none;
      delivery_proxy = none;
      remediation = none;
      policy = some c;
    });
    policy = λ v. some default_policy;
  };
  read_decision = λ v. none;
  repr = λ v. "";
  dict_of = λ vs. none;
}

abbrev info : Fields
info = field "file_type" (str "TextFileType") no_fields

abbrev pub handoff_of : String → PolicyHandoffRequest
handoff_of verdict = record {
  job_id = "j";
  job_item_id = "i";
  integration_id = some "int";
  scope_id = none;
  object_identity = "/a/b.txt";
  content_source = default_content_source;
  delivery_requirements = record { wait_for_dianna = false };
  scan_result = record {
    verdict = verdict;
    scan_guid = none;
    verdict_details = no_fields;
    file_info = some info;
    protected_entity = none;
  };
  item_payload = no_fields;
  policy_context = no_fields;
  item_metadata = no_fields;
}

plain :
    (c : PolicyRuntimeConfig) (verdict : String)
    → c.remediation_plan_by_verdict ≡ none
    → extract_policy_runtime_config (env_of c) (handoff_of verdict) ≡ some c
    → IsPlain (env_of c) c (handoff_of verdict)
unfolding get_field
plain c verdict h e = record {
  config = e;
  no_decision = refl;
  no_plan = refl;
  no_plans = h;
  has_target = refl;
}

remediation_exactly_example :
    ordered (stub_policy_engine (env_of policy) (handoff_of " Malicious")) ≡ some (str "delete")
unfolding extract_policy_runtime_config resolve_policy_runtime_config
    parse_integration_runtime_config parse_policy_runtime_config resolve_policies get_field
    lower_strip non_compliance_match
remediation_exactly_example =
    remediation_exactly (env_of policy) policy (handoff_of " Malicious")
      (plain policy " Malicious" refl refl) refl refl

idle_action_remediates_example :
    ordered (stub_policy_engine (env_of blocking) (handoff_of "benign")) ≡ some (str "delete")
unfolding extract_policy_runtime_config resolve_policy_runtime_config
    parse_integration_runtime_config parse_policy_runtime_config resolve_policies get_field
    has_field lower_strip non_compliance_match file_type_tokens least occurs_in ends_with lower_text
    configured_action iterated
idle_action_remediates_example =
    idle_action_remediates (env_of blocking) blocking (handoff_of "benign") "executables"
      (plain blocking "benign" refl refl) refl refl refl refl

abbrev pub decision : PolicyDecision
decision = record {
  remediation_plan = no_fields;
  delivery_target = field "connector" (str "siem") no_fields;
  request_dianna = false;
  wait_for_dianna_before_delivery = false;
  dianna_reason = "auto_on_malicious";
  dianna_options = no_fields;
}

-- What the engine decides for a benign object.
abbrev pub decided : PolicyHandoffDecision
decided =
    handoff_decision policy "benign" "benign" none (record decision { delivery_target = no_fields })

stub_policy_engine-IsCoherent_example : IsCoherent decided
unfolding extract_policy_runtime_config resolve_policy_runtime_config
    parse_integration_runtime_config parse_policy_runtime_config resolve_policies get_field get
    lower_strip non_compliance_match stub_policy_engine follow_policy decide policy_verdict
    chosen_plan effective_text default_remediation_plan_for_verdict build_stub_handoff_decision
stub_policy_engine-IsCoherent_example =
    stub_policy_engine-IsCoherent (env_of policy) (handoff_of "benign") decided refl
