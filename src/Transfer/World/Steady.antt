-- ===== src/Transfer/World/Steady.antt =====
-- What the theorems on runs that can be noted assume of the audit log, the file of the checkpoints and
-- the progress callback: they take what they are given.
use dsx_connect.Prelude.{ℕ, ◌≡◌, none}
use dsx_connect.Prelude.Dict.{Dict}
use dsx_connect.Transfer.Models.{TransferItemOutcome, AuditEvent, CheckpointRecord}
use dsx_connect.Transfer.World.{Env}

pub record IsSteady (env : Env) : Type 0 where
  pub emits : (e : AuditEvent) (n : ℕ) → env.emit e n ≡ none
  pub loads : (n : ℕ) → env.load n ≡ none
  pub stores : (d : Dict CheckpointRecord) (n : ℕ) → env.store d n ≡ none
  pub reports : (k l : ℕ) (o : TransferItemOutcome) (n : ℕ) → env.progress k l o n ≡ none
