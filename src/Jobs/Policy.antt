-- ===== src/Jobs/Policy.antt =====
-- dsx_connect_ng/dsx_connect_ng/jobs/models.py: the policy decisions that a policy stage carries.
use dsx_connect.Prelude.{String, Bool, Option, List}
use dsx_connect.Prelude.Value.{Fields}
use dsx_connect.Jobs.Models.{ContentSourceMode}

pub data StageResultDeliveryMode : Type 0 where
  never all_results malicious_only failures_only completed_only : StageResultDeliveryMode
  all_outcomes : StageResultDeliveryMode

pub record StageResultDeliveryPolicy : Type 0 where
  pub scan : StageResultDeliveryMode
  pub remediation : StageResultDeliveryMode
  pub dianna : StageResultDeliveryMode

pub data Applicability : Type 0 where
  pending skipped requested : Applicability

abbrev pub is_requested : Applicability → Bool
is_requested Applicability.requested = Bool.true
is_requested _ = Bool.false

pub record StageApplicabilityDecision : Type 0 where
  pub state : Applicability
  pub reason : Option String
  pub details : Fields

pub record DeliveryDispatchDecision : Type 0 where
  pub request_now : Bool
  pub wait_for_dianna : Bool
  pub targets : List Fields
  pub scan_targets : List Fields
  pub remediation_targets : List Fields
  pub dianna_targets : List Fields
  pub workflow_summary_targets : List Fields
  pub scan_targets_configured : Bool
  pub remediation_targets_configured : Bool
  pub dianna_targets_configured : Bool
  pub workflow_summary_targets_configured : Bool

pub record ContentPreservationDecision : Type 0 where
  pub mode : ContentSourceMode
  pub reason : Option String
  pub details : Fields

pub record PolicyStageResult : Type 0 where
  pub policy_id : Option String
  pub decision_trace : Fields

pub record PolicyHandoffDecision : Type 0 where
  pub policy_stage_result : PolicyStageResult
  pub remediation : StageApplicabilityDecision
  pub dianna : StageApplicabilityDecision
  pub delivery : DeliveryDispatchDecision
  pub content_preservation : ContentPreservationDecision
  pub result_delivery_policy : StageResultDeliveryPolicy

pub record PolicyDecision : Type 0 where
  pub remediation_plan : Fields
  pub delivery_target : Fields
  pub request_dianna : Bool
  pub wait_for_dianna_before_delivery : Bool
  pub dianna_reason : String
  pub dianna_options : Fields

-- The result of a policy stage, for the two shapes that the service reads.
pub data ResultType : Type 0 where
  scan_result remediation_result dianna_result workflow_summary : ResultType
