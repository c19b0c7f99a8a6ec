-- ===== src/Control/Config.antt =====
-- dsx_connect_ng/dsx_connect_ng/control_plane/config_models.py: the configuration of the policy and of the
-- remediation, and which of two policies wins. Texts of a literal type are texts where the code
-- looks them up in a dict, and enumerations elsewhere.
pub mod Resolve
use dsx_connect.Prelude.{
  ℕ, String, Bool, true, false, Option, none, some, List, if◌then◌else◌, ◌&&◌, ◌||◌, str_eq,
  or_else,
}
use dsx_connect.Prelude.Dict.{Dict}
use dsx_connect.Prelude.Value.{Fields, Value, obj, or_empty}
use dsx_connect.Prelude.Text.{lower_strip}
use dsx_connect.Jobs.Models.{ContentSourceMode}
use dsx_connect.Jobs.Policy.{StageResultDeliveryPolicy}

pub data RemediationAction : Type 0 where
  detect_only quarantine delete tag_only : RemediationAction

pub data FallbackTreatment : Type 0 where
  treat_as_benign treat_as_malicious : FallbackTreatment

pub record PolicyDeliveryTargetsConfig : Type 0 where
  pub scan_targets : Option (List Fields)
  pub remediation_targets : Option (List Fields)
  pub dianna_targets : Option (List Fields)
  pub workflow_summary_targets : Option (List Fields)

pub data CollisionStrategy : Type 0 where
  overwrite suffix_random fail : CollisionStrategy

pub record QuarantineTargetConfig : Type 0 where
  pub path : Option String
  pub prefix : Option String
  pub target_path : Option String
  pub repository : Option String
  pub preserve_relative_path : Bool
  pub collision_strategy : CollisionStrategy
  pub suffix_length : ℕ

pub record MaliciousVerdictPolicyConfig : Type 0 where
  pub action : RemediationAction
  pub quarantine_target : Option QuarantineTargetConfig
  pub tag_on_detect : Bool
  pub tag_on_quarantine : Bool

pub record PolicyRuntimeConfig : Type 0 where
  pub policy_id : Option String
  pub auto_dianna_on_verdicts : Option (List String)
  pub wait_for_dianna_on_auto_request : Option Bool
  pub malicious_verdict : Option MaliciousVerdictPolicyConfig
  pub verdict_actions : Option Fields
  pub non_compliant_treatment : Option FallbackTreatment
  pub not_scanned_treatment : Option FallbackTreatment
  pub outcome_triggers : Option Fields
  pub non_compliance : Option Fields
  pub not_scanned : Option Fields
  pub remediation_plan_by_verdict : Option (Dict Fields)
  pub result_delivery_policy : Option StageResultDeliveryPolicy
  pub delivery : Option PolicyDeliveryTargetsConfig
  pub content_preservation_mode_by_verdict : Option (Dict ContentSourceMode)

-- `PolicyRuntimeConfig()`
abbrev pub default_policy : PolicyRuntimeConfig
default_policy = record {
  policy_id = none;
  auto_dianna_on_verdicts = none;
  wait_for_dianna_on_auto_request = none;
  malicious_verdict = none;
  verdict_actions = none;
  non_compliant_treatment = none;
  not_scanned_treatment = none;
  outcome_triggers = none;
  non_compliance = none;
  not_scanned = none;
  remediation_plan_by_verdict = none;
  result_delivery_policy = none;
  delivery = none;
  content_preservation_mode_by_verdict = none;
}

-- The texts are any action that a plan or a caller names.
pub record RemediationCapabilitiesConfig : Type 0 where
  pub supports_delete : Bool
  pub supports_move : Bool
  pub supports_tag : Bool
  pub supports_movetag : Bool
  pub supports_overwrite : Bool
  pub supports_metadata_preserving_move : Bool

-- `str(action or "nothing").strip().lower()` for a text
abbrev pub action_text : String → String
action_text action = lower_strip (if str_eq action "" then "nothing" else action)

unfoldable pub supports_action : RemediationCapabilitiesConfig → String → Bool
supports_action c action =
    let n : String = action_text action in
    if str_eq n "nothing"
    then true
    else if str_eq n "delete"
    then c.supports_delete
    else if str_eq n "move"
    then c.supports_move
    else if str_eq n "tag"
    then c.supports_tag
    else if str_eq n "movetag"
    then c.supports_movetag || c.supports_move && c.supports_tag
    else false

pub data ProxyAuthMode : Type 0 where
  no_auth static_header dsx_hmac : ProxyAuthMode

-- Without the timeout, a floating-point number.
pub record ProxyReaderConfig : Type 0 where
  pub endpoint_url : Option String
  pub base_url : Option String
  pub connector_name : Option String
  pub auth_mode : ProxyAuthMode
  pub header_name : Option String
  pub header_value : Option String
  pub hmac_key_id : Option String
  pub hmac_secret : Option String

-- What the workers read of an `IntegrationRuntimeConfig`: `reader.proxy` and `delivery.proxy`, each if
-- there is a reader and a delivery. A `DeliveryProxyConfig` has the same fields.
pub record IntegrationRuntimeConfig : Type 0 where
  pub reader_proxy : Option ProxyReaderConfig
  pub delivery_proxy : Option ProxyReaderConfig
  pub remediation : Option RemediationCapabilitiesConfig
  pub policy : Option PolicyRuntimeConfig

-- pydantic's `model_validate` of the two models; `none` is a `ValidationError`.
pub record Parser : Type 0 where
  pub integration : Value → Option IntegrationRuntimeConfig
  pub policy : Value → Option PolicyRuntimeConfig

-- `parse_integration_runtime_config` and `parse_policy_runtime_config`
unfoldable pub parse_integration_runtime_config :
    Parser → Option Fields → Option IntegrationRuntimeConfig
parse_integration_runtime_config p config = p.integration (obj (or_empty config))

unfoldable pub parse_policy_runtime_config : Parser → Option Fields → Option PolicyRuntimeConfig
parse_policy_runtime_config p config = p.policy (obj (or_empty config))

abbrev capabilities : Bool → IntegrationRuntimeConfig → RemediationCapabilitiesConfig
capabilities default_enabled runtime = or_else runtime.remediation (record {
  supports_delete = default_enabled;
  supports_move = default_enabled;
  supports_tag = default_enabled;
  supports_movetag = default_enabled;
  supports_overwrite = false;
  supports_metadata_preserving_move = false;
})

unfoldable pub resolve_remediation_capabilities :
    Parser → Option Fields → Bool → Option RemediationCapabilitiesConfig
unfolding parse_integration_runtime_config
resolve_remediation_capabilities p config default_enabled =
    elim (parse_integration_runtime_config p config) [
      | none ↦ none
      | some runtime ↦ some (capabilities default_enabled runtime)
    ]

-- `_resolve(field_name)`: the value of the scope, unless it is `None`.
abbrev pub resolve {ℓ} : {A : Type ℓ} → Option A → Option A → Option A
resolve none integration = integration
resolve (some a) integration = some a

-- The policy that `resolve_policy_runtime_config` builds, of the scope's and the integration's.
unfoldable pub resolve_policies : PolicyRuntimeConfig → PolicyRuntimeConfig → PolicyRuntimeConfig
resolve_policies s i = record {
  policy_id = resolve s.policy_id i.policy_id;
  auto_dianna_on_verdicts = resolve s.auto_dianna_on_verdicts i.auto_dianna_on_verdicts;
  wait_for_dianna_on_auto_request =
      resolve s.wait_for_dianna_on_auto_request i.wait_for_dianna_on_auto_request;
  malicious_verdict = resolve s.malicious_verdict i.malicious_verdict;
  verdict_actions = resolve s.verdict_actions i.verdict_actions;
  non_compliant_treatment = resolve s.non_compliant_treatment i.non_compliant_treatment;
  not_scanned_treatment = resolve s.not_scanned_treatment i.not_scanned_treatment;
  outcome_triggers = resolve s.outcome_triggers i.outcome_triggers;
  non_compliance = resolve s.non_compliance i.non_compliance;
  not_scanned = resolve s.not_scanned i.not_scanned;
  remediation_plan_by_verdict = resolve s.remediation_plan_by_verdict i.remediation_plan_by_verdict;
  result_delivery_policy = resolve s.result_delivery_policy i.result_delivery_policy;
  delivery = resolve s.delivery i.delivery;
  content_preservation_mode_by_verdict =
      resolve s.content_preservation_mode_by_verdict i.content_preservation_mode_by_verdict;
}

abbrev resolve_parsed :
    Option IntegrationRuntimeConfig → Option PolicyRuntimeConfig → Option PolicyRuntimeConfig
unfolding resolve_policies
resolve_parsed none scope = none
resolve_parsed (some i) none = none
resolve_parsed (some i) (some scope) =
    some (resolve_policies scope (or_else i.policy default_policy))

unfoldable pub resolve_policy_runtime_config :
    Parser → Option Fields → Option Fields → Option PolicyRuntimeConfig
unfolding parse_integration_runtime_config parse_policy_runtime_config resolve_parsed
resolve_policy_runtime_config p integration_config scope_policy =
    resolve_parsed (parse_integration_runtime_config p integration_config)
      (parse_policy_runtime_config p scope_policy)
