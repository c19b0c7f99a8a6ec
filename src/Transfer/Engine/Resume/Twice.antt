-- ===== src/Transfer/Engine/Resume/Twice.antt =====
-- A second run over an item that has been let through.
use dsx_connect.Prelude.{
  ℕ, String, ◌≡◌, refl, sym, ap, ◌∙◌, true, Option, none, some, arith, subst, eq_refl,
}
use dsx_connect.Prelude.Dict.{get}
use dsx_connect.Transfer.Models.{
  TransferItem, TransferItemOutcome, TransferItemState, CheckpointRecord, is_state,
}
use dsx_connect.Transfer.World.{World, Env, Result, ok, utcnow}
use dsx_connect.Transfer.World.Returns.{IsOk}
use dsx_connect.Transfer.Checkpoint.{fingerprint, checkpoint_key}
use dsx_connect.Transfer.Engine.{skip_item, attempt_item, execute_item}
use dsx_connect.Transfer.World.Steady.{IsSteady}
use dsx_connect.Transfer.Engine.Resume.{
  is_done, Saved, Done, IsStored, find_checkpoint-ok, skip_item-ok, skip_item-checkpoints,
  execute_item-Done,
}
use dsx_connect.Transfer.Engine.Calls.{skip_item-calls}

module _ (env : Env) (t : String) (item : TransferItem) (steady : IsSteady env)
    (with_store : env.with_checkpoints ≡ true) where
  attempt_item-skipped :
      (row : CheckpointRecord) (n : ℕ) (w : World)
      → IsStored env t item (some row) w
      → is_state row.state TransferItemState.allowed ≡ true
      → attempt_item env t item n w ≡ skip_item env t item row n w
  unfolding attempt_item
  attempt_item-skipped row n w h s = grind (
    arith,
    find_checkpoint-ok env t item steady with_store w,
    h.0,
    h.1,
    eq_refl (fingerprint env item),
    s,
  )

  -- An item whose checkpoint is fitting and allowed is skipped.
  execute_item-skipped :
      (row : CheckpointRecord) (w : World)
      → IsStored env t item (some row) w
      → is_state row.state TransferItemState.allowed ≡ true
      → execute_item env t item w ≡ skip_item env t item row (env.clock w.ticks) (utcnow env w).1
  unfolding execute_item
  execute_item-skipped row w h s = grind (
    arith,
    attempt_item-skipped row (env.clock w.ticks) (utcnow env w).1 h s,
    skip_item-ok env t item steady with_store row (env.clock w.ticks) (utcnow env w).1,
  )

-- What a run over the item gives when it is skipped, next to the outcome of the first run.
abbrev pub Repeats : TransferItem → TransferItemOutcome → TransferItemOutcome → Type 0
Repeats item o again =
    (again.item ≡ item)
    × (again.state ≡ TransferItemState.skipped)
    × (again.decision ≡ o.decision)
    × (again.bytes_written ≡ o.bytes_written)

repeated :
    (env : Env) (t : String) (item : TransferItem) (o : TransferItemOutcome)
    (c : Option CheckpointRecord) (w : World)
    → IsSteady env
    → env.with_checkpoints ≡ true
    → get w.checkpoints (checkpoint_key t item) ≡ c
    → Saved env item o c
    → is_done o.state ≡ true
    → IsOk (Repeats item o) (execute_item env t item w).0
      × ((execute_item env t item w).1.calls ≡ w.calls)
      × ((execute_item env t item w).1.checkpoints ≡ w.checkpoints)
repeated env t item o none w h e g s d = absurd s
repeated env t item o (some row) w h e g s d =
    let n = env.clock w.ticks in
    let q = execute_item-skipped env t item h e row w (g, s.0) (s.1 ∙ d) in
    (
      subst (λ (r : Result TransferItemOutcome). IsOk (Repeats item o) r)
          (sym (ap (λ p. p.0) q ∙ skip_item-ok env t item h e row n (utcnow env w).1))
          (refl, refl, s.2, s.3),
      ap (λ p. p.1.calls) q ∙ skip_item-calls env t item row n (utcnow env w).1,
      ap (λ p. p.1.checkpoints) q ∙ skip_item-checkpoints env t item h e row n (utcnow env w).1,
    )

Done-Saved :
    (env : Env) (t : String) (item : TransferItem) (o : TransferItemOutcome)
    (r : Result TransferItemOutcome) (w : World)
    → Done env t item (r, w)
    → r ≡ ok o
    → Saved env item o (get w.checkpoints (checkpoint_key t item))
Done-Saved env t item o r w h e =
    subst (λ (x : Result TransferItemOutcome). Done env t item (x, w)) e h

-- When the checkpoints, the audit log and the progress callback take what they are given, an item that
-- came through, now or before, is skipped by the next run, with the decision and the bytes of the first
-- one; the gate is not asked, nothing is written, and the checkpoints stay as they are.
pub execute_item-twice :
    (env : Env) (t : String) (item : TransferItem) (o : TransferItemOutcome) (w : World)
    → IsSteady env
    → env.with_checkpoints ≡ true
    → (execute_item env t item w).0 ≡ ok o
    → is_done o.state ≡ true
    → IsOk (Repeats item o) (execute_item env t item (execute_item env t item w).1).0
      × ((execute_item env t item (execute_item env t item w).1).1.calls
          ≡ (execute_item env t item w).1.calls)
      × ((execute_item env t item (execute_item env t item w).1).1.checkpoints
          ≡ (execute_item env t item w).1.checkpoints)
execute_item-twice env t item o w h e r d =
    let v = execute_item env t item w in
    repeated env t item o (get v.1.checkpoints (checkpoint_key t item)) v.1 h e refl
      (Done-Saved env t item o v.0 v.1 (execute_item-Done env t item h e w) r) d
