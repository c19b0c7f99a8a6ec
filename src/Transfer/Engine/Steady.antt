-- ===== src/Transfer/Engine/Steady.antt =====
-- A run whose audit log, checkpoints and progress callback take what they are given.
use dsx_connect.Prelude.{
  ℕ, String, ◌≡◌, refl, none, some, List, [], ◌∷◌, ◌+◌, arith, length, count, if◌then◌else◌,
}
use dsx_connect.Prelude.Dict.{Dict, put}
use dsx_connect.Transfer.Models.{
  TransferItem, TransferItemOutcome, TransferItemState, TransferPlan, TransferReport,
  CheckpointRecord, TransferError, has_state, from_outcome, planned_count, allowed_count,
  blocked_count, failed_count, skipped_count, excluded_count,
}
use dsx_connect.Transfer.World.{World, Env, pure, rescue, ◌>>=◌, utcnow, load_file, write_file}
use dsx_connect.Transfer.World.Returns.{
  Returns, Returns-pure, Returns-bind, Returns-if, Returns-rescue, Returns-utcnow, Any, IsOk,
}
use dsx_connect.Transfer.World.Steady.{IsSteady}
use dsx_connect.Transfer.Checkpoint.{put_checkpoint, checkpoint_key, new_checkpoint}
use dsx_connect.Transfer.Engine.{
  record_outcome, attempt_item, fail_item, execute_item, recorded, emit_audit, record_progress,
  execute_items, execute_plan, new_outcome, new_report,
}
use dsx_connect.Transfer.Engine.Outcomes.{Answers, attempt_item-Yields}

-- One outcome for each item, in the order of the items.
abbrev pub AllAnswered : List TransferItem → List TransferItemOutcome → Type 0
AllAnswered [] [] = Unit
AllAnswered (item ∷ items) (o ∷ os) = Answers item o × AllAnswered items os
AllAnswered _ _ = ⊥

module _ (env : Env) (steady : IsSteady env) where
  load_file-Returns : Returns Any (load_file env)
  load_file-Returns = record { at = λ w. ground (arith, steady.loads w.ticks) }

  write_file-Returns : (d : Dict CheckpointRecord) → Returns Any (write_file env d)
  write_file-Returns d = record { at = λ w. ground (arith, steady.stores d w.ticks) }

  put_checkpoint-Returns :
      (t : String) (o : TransferItemOutcome) → Returns Any (put_checkpoint env t o)
  unfolding put_checkpoint
  put_checkpoint-Returns t o =
      Returns-bind (load_file env)
        (λ rows. utcnow env >>= λ now.
          write_file env (put rows (checkpoint_key t o.item) (new_checkpoint env t o now)))
        load_file-Returns
        (λ rows u.
          Returns-bind (utcnow env)
            (λ now.
              write_file env (put rows (checkpoint_key t o.item) (new_checkpoint env t o now)))
            (Returns-utcnow env)
            (λ now v.
              write_file-Returns (put rows (checkpoint_key t o.item) (new_checkpoint env t o now))))

  emit_audit-Returns : (t : String) (o : TransferItemOutcome) → Returns Any (emit_audit env t o)
  unfolding emit_audit
  emit_audit-Returns t o = record {
    at = λ w. ground (arith, steady.emits (from_outcome t o) w.ticks);
  }

  record_outcome-Returns :
      (t : String) (o : TransferItemOutcome) → Returns Any (record_outcome env t o)
  unfolding record_outcome
  record_outcome-Returns t o =
      Returns-bind (if env.with_checkpoints then put_checkpoint env t o else pure tt)
        (λ u. emit_audit env t o)
        (Returns-if env.with_checkpoints (put_checkpoint env t o) (pure tt)
          (put_checkpoint-Returns t o) (Returns-pure tt tt))
        (λ u p. emit_audit-Returns t o)

  fail_item-Returns :
      (t : String) (item : TransferItem) (n : ℕ) (x : TransferError)
      → Returns (Answers item) (fail_item env t item n x)
  unfolding fail_item
  fail_item-Returns t item n x =
      Returns-bind {Q = Answers item}
        (new_outcome env item TransferItemState.failed none 0 (some x) n) (recorded env t)
        (record { at = λ w. (refl, refl) })
        (λ o p.
          Returns-bind (record_outcome env t o) (λ u. pure o) (record_outcome-Returns t o)
            (λ u q. Returns-pure o p))

  execute_item-Returns :
      (t : String) (item : TransferItem) → Returns (Answers item) (execute_item env t item)
  unfolding execute_item
  execute_item-Returns t item =
      Returns-bind (utcnow env) (λ n. rescue (attempt_item env t item n) (fail_item env t item n))
        (Returns-utcnow env)
        (λ n u.
          Returns-rescue (attempt_item env t item n) (fail_item env t item n)
            (attempt_item-Yields env t item n) (fail_item-Returns t item n))

  record_progress-Returns :
      (k n : ℕ) (o : TransferItemOutcome) → Returns Any (record_progress env k n o)
  record_progress-Returns k n o = record {
    at = λ w. ground (arith, steady.reports (k + 1) n o w.ticks);
  }

  execute_items-Returns :
      (t : String) (k n : ℕ) (items : List TransferItem)
      → Returns (AllAnswered items) (execute_items env t k n items)
  unfolding execute_items
  execute_items-Returns t k n [] = Returns-pure [] tt
  execute_items-Returns t k n (item ∷ items) =
      Returns-bind (execute_item env t item)
        (λ o. record_progress env k n o >>= λ l.
          execute_items env t l n items >>= λ rest. pure (o ∷ rest))
        (execute_item-Returns t item)
        (λ o p.
          Returns-bind (record_progress env k n o)
            (λ l. execute_items env t l n items >>= λ rest. pure (o ∷ rest))
            (record_progress-Returns k n o)
            (λ l u.
              Returns-bind (execute_items env t l n items) (λ rest. pure (o ∷ rest))
                (execute_items-Returns t l n items) (λ rest q. Returns-pure (o ∷ rest) (p, q))))

-- The counters of a report, all together.
abbrev pub counted : TransferReport → ℕ
counted r = allowed_count r + blocked_count r + failed_count r + skipped_count r + excluded_count r

-- The report that a plan asks for.
abbrev pub Reports : TransferPlan → TransferReport → Type 0
Reports plan r =
    (r.transfer_id ≡ plan.transfer_id)
    × AllAnswered plan.items r.outcomes
    × (planned_count r ≡ length plan.items)
    × (counted r ≡ length plan.items)

length-answered :
    (items : List TransferItem) (os : List TransferItemOutcome)
    → AllAnswered items os
    → length os ≡ length items
length-answered [] [] h = refl
length-answered [] (o ∷ os) h = absurd h
length-answered (i ∷ items) [] h = absurd h
length-answered (i ∷ items) (o ∷ os) h = omega (arith, length-answered items os h.1)

abbrev total : List TransferItemOutcome → ℕ
total os =
    count (has_state TransferItemState.allowed) os
    + count (has_state TransferItemState.blocked) os
    + count (has_state TransferItemState.failed) os
    + count (has_state TransferItemState.skipped) os
    + count (has_state TransferItemState.excluded) os

total-answered :
    (items : List TransferItem) (os : List TransferItemOutcome)
    → AllAnswered items os
    → total os ≡ length items
total-answered [] [] h = refl
total-answered [] (o ∷ os) h = absurd h
total-answered (i ∷ items) [] h = absurd h
total-answered (i ∷ items) (o ∷ os) h = ground (arith, total-answered items os h.1, h.0.1)

reported :
    (env : Env) (plan : TransferPlan) (n : ℕ) (os : List TransferItemOutcome)
    → AllAnswered plan.items os
    → Returns (Reports plan) (new_report env plan n os)
reported env plan n os h = record {
  at = λ w. (refl, h, length-answered plan.items os h, total-answered plan.items os h);
}

-- When the audit log, the checkpoints and the progress callback do not raise, a run always ends with a
-- report, whatever the gate and the sink do: one coherent outcome for each item of the plan, in order,
-- each counted by exactly one of the counters.
pub execute_plan-Reports :
    (env : Env) (plan : TransferPlan) (w : World)
    → IsSteady env
    → IsOk (Reports plan) (execute_plan env plan w).0
unfolding execute_plan
execute_plan-Reports env plan w steady =
    (Returns-bind (execute_items env plan.transfer_id 0 (length plan.items) plan.items)
        (new_report env plan (env.clock w.ticks))
        (execute_items-Returns env steady plan.transfer_id 0 (length plan.items) plan.items)
        (reported env plan (env.clock w.ticks))).at
      (utcnow env w).1
