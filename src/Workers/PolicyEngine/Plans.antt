-- ===== src/Workers/PolicyEngine/Plans.antt =====
-- dsx_connect_ng/dsx_connect_ng/workers/policy_engine.py: the verdict that counts, and the plan of the remediation.
use dsx_connect.Prelude.{
  String, Bool, true, Option, none, some, List, if◌then◌else◌, str_eq, any, [], ◌∷◌,
}
use dsx_connect.Prelude.Value.{
  Fields, Value, no_fields, field, null, bool, num, str, obj, get_field, truthy, or_value, or_empty,
  merge, is_true,
}
use dsx_connect.Prelude.Text.{lower_strip}
use dsx_connect.Control.Config.{
  PolicyRuntimeConfig, MaliciousVerdictPolicyConfig, QuarantineTargetConfig, RemediationAction,
  FallbackTreatment, CollisionStrategy,
}
use dsx_connect.Workers.PolicyEngine.Handoff.{Env, ◌>>=◌, text_of, to_dict, opt_text}

-- `s in {…}`
abbrev pub is_one_of : String → List String → Bool
is_one_of s ts = any (λ t. str_eq s t) ts

abbrev pub not_scanned_texts : List String
not_scanned_texts = "not scanned" ∷ "not_scanned" ∷ "notscanned" ∷ []

-- `_normalized_verdict(verdict) in {"not scanned", "not_scanned", "notscanned"}`
abbrev pub is_not_scanned : String → Bool
is_not_scanned verdict = is_one_of (lower_strip verdict) not_scanned_texts

-- `"malicious" if treatment == "treat_as_malicious" else "benign"`
abbrev pub treated_as : Option FallbackTreatment → String
treated_as (some FallbackTreatment.treat_as_malicious) = "malicious"
treated_as _ = "benign"

-- The ladder of `_effective_policy_verdict` for a text without outer spaces, in lower case.
unfoldable pub effective_text : PolicyRuntimeConfig → String → String
effective_text c n =
    if is_one_of n ("malicious" ∷ "suspicious" ∷ "benign" ∷ [])
    then n
    else if is_one_of n ("non-compliant" ∷ "non_compliant" ∷ "noncompliant" ∷ [])
    then treated_as c.non_compliant_treatment
    else if is_one_of n not_scanned_texts
    then treated_as c.not_scanned_treatment
    else n

-- `_effective_policy_verdict`
abbrev pub effective_policy_verdict : PolicyRuntimeConfig → String → String
effective_policy_verdict c raw = effective_text c (lower_strip raw)

abbrev strategy_text : CollisionStrategy → String
strategy_text CollisionStrategy.overwrite = "overwrite"
strategy_text CollisionStrategy.suffix_random = "suffix_random"
strategy_text CollisionStrategy.fail = "fail"

-- `target.model_dump(mode="json")`: the fields in their order.
abbrev pub dump_target : QuarantineTargetConfig → Fields
dump_target t = field "path" (opt_text t.path) (
    field "prefix" (opt_text t.prefix) (
      field "target_path" (opt_text t.target_path) (
        field "repository" (opt_text t.repository) (
          field "preserve_relative_path" (bool t.preserve_relative_path) (
            field "collision_strategy" (str (strategy_text t.collision_strategy))
              (field "suffix_length" (num t.suffix_length) no_fields))))))

-- `plan["targetPath"] = target_path`, unless it is `None`, and `plan["quarantineTarget"] = …` after it
abbrev target_fields : Value → Fields → Fields
target_fields null target_data = field "quarantineTarget" (obj target_data) no_fields
target_fields target_path target_data =
    field "targetPath" target_path (field "quarantineTarget" (obj target_data) no_fields)

-- The part of the plan for the quarantine target of the configuration.
abbrev configured_target : Option QuarantineTargetConfig → Fields
configured_target none = no_fields
configured_target (some t) =
    target_fields
      (or_value (or_value (opt_text t.target_path) (opt_text t.path)) (opt_text t.prefix))
      (dump_target t)

abbrev pub plan_of_policy : MaliciousVerdictPolicyConfig → Fields
plan_of_policy p = elim p.action [
  | RemediationAction.detect_only ↦ no_fields
  | RemediationAction.delete ↦ field "action" (str "delete") no_fields
  | RemediationAction.tag_only ↦ field "action" (str "tag_only") (field "tag" (bool true) no_fields)
  | RemediationAction.quarantine ↦ field "action" (str "quarantine") (
      merge (configured_target p.quarantine_target)
        (field "tag" (bool p.tag_on_quarantine) no_fields))
]

abbrev plan_of_option : Option MaliciousVerdictPolicyConfig → Fields
plan_of_option none = no_fields
plan_of_option (some p) = plan_of_policy p

-- `_default_remediation_plan_for_verdict`
unfoldable pub default_remediation_plan_for_verdict : PolicyRuntimeConfig → String → Fields
default_remediation_plan_for_verdict c effective =
    if str_eq effective "malicious" then plan_of_option c.malicious_verdict else no_fields

-- The action of the section of an outcome, which the others do not have.
abbrev section_action : PolicyRuntimeConfig → String → Value
section_action c key =
    if str_eq key "non_compliant"
    then get_field (or_empty c.non_compliance) "action"
    else if str_eq key "not_scanned"
    then get_field (or_empty c.not_scanned) "action"
    else null

-- `_configured_action`
unfoldable pub configured_action : Env → PolicyRuntimeConfig → String → String
configured_action env c key =
    let value : Value = get_field (or_empty c.verdict_actions) key in
    let own : Value = section_action c key in
    if truthy value
    then text_of env value
    else if truthy own
    then text_of env own
    else if is_true (get_field (or_empty c.outcome_triggers) key)
    then "quarantine"
    else "detect_only"

abbrev config_target : Option MaliciousVerdictPolicyConfig → Option Fields
config_target none = none
config_target (some p) = elim p.quarantine_target [ none ↦ none | some t ↦ some (dump_target t) ]

abbrev found_dict : Option Fields → Option (Option Fields)
found_dict none = none
found_dict (some d) = some (some d)

-- The data of the target: the one that the section names, or the one for malicious objects. The
-- outer option is an error of `dict(target)`, the inner one the absence of a target.
abbrev chosen_target : Env → Value → Option MaliciousVerdictPolicyConfig → Option (Option Fields)
chosen_target env null m = some (config_target m)
chosen_target env v m = found_dict (to_dict env v)

abbrev named_target : PolicyRuntimeConfig → String → Value
named_target c target_source =
    let d : Fields = or_empty c.non_compliance in
    if str_eq target_source "non_compliance"
    then or_value (get_field d "quarantine_target") (get_field d "quarantineTarget")
    else null

abbrev found_path : Fields → Value
found_path d =
    or_value
      (or_value (or_value (get_field d "target_path") (get_field d "targetPath"))
        (get_field d "path"))
      (get_field d "prefix")

abbrev dumped_target : Option Fields → Fields
dumped_target none = no_fields
dumped_target (some d) = target_fields (found_path d) d

abbrev quarantine_plan : Option Fields → Fields
quarantine_plan target =
    field "action" (str "quarantine") (field "tag" (bool true) (dumped_target target))

-- `_remediation_plan_for_action`
unfoldable pub remediation_plan_for_action :
    Env → PolicyRuntimeConfig → String → String → Option Fields
remediation_plan_for_action env c action target_source =
    let n : String = lower_strip (if str_eq action "" then "detect_only" else action) in
    if is_one_of n ("detect_only" ∷ "nothing" ∷ "none" ∷ [])
    then some no_fields
    else if str_eq n "delete"
    then some (field "action" (str "delete") no_fields)
    else if str_eq n "tag_only"
    then some (field "action" (str "tag_only") (field "tag" (bool true) no_fields))
    else do
      target ← chosen_target env (named_target c target_source) c.malicious_verdict
      some (quarantine_plan target)
