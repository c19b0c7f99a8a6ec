-- ===== src/Transfer/Engine/Resume.antt =====
-- A run over an item that has been let through before.
pub mod Twice
use dsx_connect.Prelude.{
  ℕ, String, ◌≡◌, refl, sym, ap, ◌∙◌, Bool, true, false, Option, none, some, arith, subst, eq_refl,
  eq_iff, str_eq, inl, inr, Bool-cases, if◌then◌else◌,
}
use dsx_connect.Prelude.Dict.{Dict, get, put, get-put}
use dsx_connect.Transfer.Models.{
  TransferItem, TransferItemOutcome, TransferItemState, CheckpointRecord, ScanDecision,
  TransferError, TransferAction, is_state, from_outcome, decision_allowed,
}
use dsx_connect.Transfer.World.{
  World, Env, M, Result, ok, raised, continue, handle, utcnow, ◌>>=◌, ask_gate, write_item,
  load_file, write_file,
}
use dsx_connect.Transfer.World.Returns.{IsOk}
use dsx_connect.Transfer.Checkpoint.{
  fingerprint, checkpoint_key, get_checkpoint, put_checkpoint, new_checkpoint, fitting, same_text,
}
use dsx_connect.Transfer.Engine.{
  record_outcome, skip_item, accept_item, refuse_item, apply_decision, scan_item, resume_or_scan,
  attempt_item, fail_item, execute_item, recorded, find_checkpoint, emit_audit, new_outcome,
  outcome_of, state_for_non_allow_action,
}
use dsx_connect.Transfer.World.Steady.{IsSteady}
use dsx_connect.Transfer.Checkpoint.RoundTrip.{put_checkpoint_lem, put_checkpoint-ok}

-- Has the object been written, now or before?
abbrev pub is_done : TransferItemState → Bool
is_done TransferItemState.allowed = true
is_done TransferItemState.skipped = true
is_done _ = false

-- The checkpoint says what the outcome says.
abbrev pub Saved : Env → TransferItem → TransferItemOutcome → Option CheckpointRecord → Type 0
Saved env item o none = ⊥
Saved env item o (some row) =
    (row.metadata_fingerprint ≡ some (fingerprint env item))
    × (is_state row.state TransferItemState.allowed ≡ is_done o.state)
    × (row.outcome.decision ≡ o.decision)
    × (row.outcome.bytes_written ≡ o.bytes_written)

emit_audit-checkpoints :
    (env : Env) (t : String) (o : TransferItemOutcome) (w : World)
    → (emit_audit env t o w).1.checkpoints ≡ w.checkpoints
unfolding emit_audit
emit_audit-checkpoints env t o w = ground arith

emit_audit-ok :
    (env : Env) (t : String) (o : TransferItemOutcome) (w : World)
    → IsSteady env
    → (emit_audit env t o w).0 ≡ ok tt
unfolding emit_audit
emit_audit-ok env t o w h = ground (arith, h.emits (from_outcome t o) w.ticks)

recorded-checkpoints :
    (env : Env) (t : String) (o : TransferItemOutcome) (w : World)
    → IsSteady env
    → env.with_checkpoints ≡ true
    → (recorded env t o w).1.checkpoints
      ≡ put w.checkpoints (checkpoint_key t o.item) (new_checkpoint env t o (env.clock w.ticks))
unfolding record_outcome
recorded-checkpoints env t o w h e =
    grind
      (arith, put_checkpoint_lem env t o w h, put_checkpoint-ok env t o w h, emit_audit-checkpoints)

recorded-ok :
    (env : Env) (t : String) (o : TransferItemOutcome) (w : World)
    → IsSteady env
    → env.with_checkpoints ≡ true
    → (recorded env t o w).0 ≡ ok o
unfolding record_outcome
recorded-ok env t o w h e =
    grind
      (arith, put_checkpoint-ok env t o w h, emit_audit-ok env t o (put_checkpoint env t o w).1 h)

-- The result is an outcome, and the checkpoint of the item says what it says; or the method raised.
abbrev Kept : Env → String → TransferItem → Result TransferItemOutcome × World → Type 0
Kept env t item (ok o, w) = Saved env item o (get w.checkpoints (checkpoint_key t item))
Kept env t item (raised x, w) = Unit

-- The same, and it did not raise.
abbrev pub Done : Env → String → TransferItem → Result TransferItemOutcome × World → Type 0
Done env t item (ok o, w) = Saved env item o (get w.checkpoints (checkpoint_key t item))
Done env t item (raised x, w) = ⊥

-- The row, if there is one, is the stored one of this version of the item.
abbrev pub IsStored : Env → String → TransferItem → Option CheckpointRecord → World → Type 0
IsStored env t item none w = Unit
IsStored env t item (some row) w =
    (get w.checkpoints (checkpoint_key t item) ≡ some row)
    × (row.metadata_fingerprint ≡ some (fingerprint env item))

same_text-eq : (o : Option String) (s : String) → same_text o s ≡ true → o ≡ some s
same_text-eq none s h = ground (arith, h)
same_text-eq (some t) s h = ground (arith, h, eq_iff t s)

module _ (env : Env) (t : String) (item : TransferItem) (steady : IsSteady env)
    (with_store : env.with_checkpoints ≡ true) where
  stored_row :
      (o : TransferItemOutcome) (w : World)
      → o.item ≡ item
      → get (recorded env t o w).1.checkpoints (checkpoint_key t item)
        ≡ some (new_checkpoint env t o (env.clock w.ticks))
  unfolding checkpoint_key
  stored_row o w i =
      grind (arith, recorded-checkpoints env t o w steady with_store, get-put, eq_refl)

  Done-from :
      (r : Result TransferItemOutcome) (w : World) (o : TransferItemOutcome)
      (row : CheckpointRecord)
      → r ≡ ok o
      → get w.checkpoints (checkpoint_key t item) ≡ some row
      → Saved env item o (some row)
      → Done env t item (r, w)
  Done-from r w o row e g h =
      subst (λ (x : Result TransferItemOutcome). Done env t item (x, w)) (sym e)
        (subst (λ (c : Option CheckpointRecord). Saved env item o c) (sym g) h)

  recorded-Done :
      (o : TransferItemOutcome) (w : World)
      → o.item ≡ item
      → is_state o.state TransferItemState.allowed ≡ is_done o.state
      → Done env t item (recorded env t o w)
  recorded-Done o w i s =
      Done-from (recorded env t o w).0 (recorded env t o w).1 o
        (new_checkpoint env t o (env.clock w.ticks)) (recorded-ok env t o w steady with_store)
        (stored_row o w i) (ap (λ x. some (fingerprint env x)) i, s, refl, refl)

  Done-Kept : (p : Result TransferItemOutcome × World) → Done env t item p → Kept env t item p
  Done-Kept (ok o, w) h = h
  Done-Kept (raised x, w) h = tt

  fail_item-Done :
      (n : ℕ) (x : TransferError) (w : World) → Done env t item (fail_item env t item n x w)
  unfolding fail_item
  fail_item-Done n x w =
      let o = outcome_of item TransferItemState.failed none 0 (some x) n (env.clock w.ticks) in
      recorded-Done o (utcnow env w).1 refl refl

  accepted :
      (n : ℕ) (d : ScanDecision) (r : Result ℕ) (w : World)
      → Kept env t item (
          continue r
            (λ b.
              new_outcome env item TransferItemState.allowed (some d) b none n >>= recorded env t)
            w)
  accepted n d (raised x) w = tt
  accepted n d (ok b) w =
      let o = outcome_of item TransferItemState.allowed (some d) b none n (env.clock w.ticks) in
      Done-Kept (recorded env t o (utcnow env w).1) (recorded-Done o (utcnow env w).1 refl refl)

  not_done :
      (a : TransferAction)
      → is_state (state_for_non_allow_action a) TransferItemState.allowed
        ≡ is_done (state_for_non_allow_action a)
  not_done a = ground arith

  refused : (n : ℕ) (d : ScanDecision) (w : World) → Kept env t item (refuse_item env t item n d w)
  refused n d w =
      let s = state_for_non_allow_action d.action in
      let o = outcome_of item s (some d) 0 none n (env.clock w.ticks) in
      Done-Kept (recorded env t o (utcnow env w).1)
        (recorded-Done o (utcnow env w).1 refl (not_done d.action))

  Kept-if :
      (b : Bool) (m n : M TransferItemOutcome) (w : World)
      → Kept env t item (m w)
      → Kept env t item (n w)
      → Kept env t item ((if b then m else n) w)
  Kept-if true m n w h k = h
  Kept-if false m n w h k = k

  decided :
      (n : ℕ) (r : Result ScanDecision) (w : World)
      → Kept env t item (continue r (apply_decision env t item n) w)
  unfolding apply_decision
  decided n (raised x) w = tt
  decided n (ok d) w =
      Kept-if (decision_allowed d) (accept_item env t item n d) (refuse_item env t item n d) w
        (accepted n d (write_item env item w).0 (write_item env item w).1) (refused n d w)

  scan_item-Kept : (n : ℕ) (w : World) → Kept env t item (scan_item env t item n w)
  unfolding scan_item
  scan_item-Kept n w = decided n (ask_gate env item w).0 (ask_gate env item w).1

  pub skip_item-ok :
      (row : CheckpointRecord) (n : ℕ) (w : World)
      → (skip_item env t item row n w).0
        ≡ ok (
            outcome_of item TransferItemState.skipped row.outcome.decision row.outcome.bytes_written
              none n
              (env.clock w.ticks))
  unfolding skip_item
  skip_item-ok row n w = ground (
    arith,
    emit_audit-ok env t
        (outcome_of item TransferItemState.skipped row.outcome.decision row.outcome.bytes_written
          none n (env.clock w.ticks))
        (utcnow env w).1 steady,
  )

  pub skip_item-checkpoints :
      (row : CheckpointRecord) (n : ℕ) (w : World)
      → (skip_item env t item row n w).1.checkpoints ≡ w.checkpoints
  unfolding skip_item emit_audit
  skip_item-checkpoints row n w = ground arith

  skip_item-Kept :
      (row : CheckpointRecord) (n : ℕ) (w : World)
      → is_state row.state TransferItemState.allowed ≡ true
      → IsStored env t item (some row) w
      → Kept env t item (skip_item env t item row n w)
  skip_item-Kept row n w s h =
      let o =
        outcome_of item TransferItemState.skipped row.outcome.decision row.outcome.bytes_written
          none n (env.clock w.ticks) in
      let v = skip_item env t item row n w in
      Done-Kept v (
        Done-from v.0 v.1 o row (skip_item-ok row n w)
          (ap (λ d. get d (checkpoint_key t item)) (skip_item-checkpoints row n w) ∙ h.0)
          (h.1, s, refl, refl))

  resume-Kept :
      (n : ℕ) (o : Option CheckpointRecord) (w : World)
      → IsStored env t item o w
      → Kept env t item (resume_or_scan env t item n o w)
  resume-Kept n none w h = scan_item-Kept n w
  resume-Kept n (some row) w h = by (is_state row.state TransferItemState.allowed) refl
    where
      by :
          (b : Bool)
          → is_state row.state TransferItemState.allowed ≡ b
          → Kept env t item ((if b then skip_item env t item row n else scan_item env t item n) w)
      by true e = skip_item-Kept row n w e h
      by false e = scan_item-Kept n w

  pub find_checkpoint-ok :
      (w : World)
      → find_checkpoint env t item w
        ≡ (ok (fitting env item (get w.checkpoints (checkpoint_key t item))), w)
  unfolding find_checkpoint get_checkpoint
  find_checkpoint-ok w = ground (arith, steady.loads w.ticks, with_store)

  fitting-IsStored :
      (c : Option CheckpointRecord) (w : World)
      → get w.checkpoints (checkpoint_key t item) ≡ c
      → IsStored env t item (fitting env item c) w
  fitting-IsStored none w e = tt
  fitting-IsStored (some row) w e =
      by (same_text row.metadata_fingerprint (fingerprint env item)) refl
    where
      by :
          (b : Bool)
          → same_text row.metadata_fingerprint (fingerprint env item) ≡ b
          → IsStored env t item (if b then some row else none) w
      by true h = (e, same_text-eq row.metadata_fingerprint (fingerprint env item) h)
      by false h = tt

  attempt_item-Kept : (n : ℕ) (w : World) → Kept env t item (attempt_item env t item n w)
  unfolding attempt_item
  attempt_item-Kept n w =
      let c = get w.checkpoints (checkpoint_key t item) in
      subst
        (λ (p : Result (Option CheckpointRecord) × World).
          Kept env t item (continue p.0 (resume_or_scan env t item n) p.1))
        (sym (find_checkpoint-ok w))
        (resume-Kept n (fitting env item c) w (fitting-IsStored c w refl))

  handled :
      (n : ℕ) (r : Result TransferItemOutcome) (w : World)
      → Kept env t item (r, w)
      → Done env t item (handle r (fail_item env t item n) w)
  handled n (ok o) w h = h
  handled n (raised x) w h = fail_item-Done n x w

  pub execute_item-Done : (w : World) → Done env t item (execute_item env t item w)
  unfolding execute_item
  execute_item-Done w =
      let n = env.clock w.ticks in
      let v = attempt_item env t item n (utcnow env w).1 in
      handled n v.0 v.1 (attempt_item-Kept n (utcnow env w).1)
