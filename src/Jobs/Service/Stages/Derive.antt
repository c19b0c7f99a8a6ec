-- ===== src/Jobs/Service/Stages/Derive.antt =====
-- When an item is completed or failed by its stages.
use dsx_connect.Prelude.{◌≡◌, ◌↔◌, ◌⊎◌, none, arith}
use dsx_connect.Jobs.Models.{ItemState, StageState, StageRecord, JobItemRecord}
use dsx_connect.Jobs.Service.Stages.{ended, derive_from}

-- A stage that neither runs nor has failed.
abbrev pub IsQuiet : StageRecord → Type 0
IsQuiet s =
    (s.state ≡ StageState.pending)
    ⊎ (s.state ≡ StageState.completed)
    ⊎ (s.state ≡ StageState.skipped)

abbrev pub IsDelivered : StageRecord → Type 0
IsDelivered s = (s.state ≡ StageState.completed) ⊎ (s.state ≡ StageState.skipped)

-- The stages complete an item, without an error and with a new completion time, exactly when the
-- scan is completed, the policy and the remediation neither run nor have failed, and the delivery
-- is completed or skipped; the row that stood there does not matter.
pub derive_completes_iff :
    (current staged : JobItemRecord)
    → (derive_from current staged ≡ ended ItemState.completed none) ↔ (
        (staged.scan_stage.state ≡ StageState.completed)
        × IsQuiet staged.policy_stage
        × IsQuiet staged.remediation_stage
        × IsDelivered staged.delivery_stage)
unfolding derive_from
derive_completes_iff current staged = (λ h. ground arith, λ h. ground arith)
