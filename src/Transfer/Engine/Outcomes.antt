-- ===== src/Transfer/Engine/Outcomes.antt =====
-- What one item comes to, and what a run comes to when its outcomes can be noted.
use dsx_connect.Prelude.{
  ℕ, String, ◌≡◌, refl, Bool, true, false, not, ◌&&◌, Option, none, some, ◌==◌, arith,
  if◌then◌else◌,
}
use dsx_connect.Transfer.Models.{
  TransferItem, TransferItemOutcome, TransferItemState, TransferAction, ScanDecision,
  CheckpointRecord, TransferError, decision_allowed, is_state,
}
use dsx_connect.Transfer.World.{
  World, Env, M, pure, rescue, ◌>>=◌, ◌>>◌, utcnow, write_item, ask_gate,
}
use dsx_connect.Transfer.World.Returns.{
  IfOk, Yields, Yields-pure, Yields-bind, Yields-if, Yields-then, Yields-rescue,
}
use dsx_connect.Transfer.Engine.{
  record_outcome, skip_item, accept_item, refuse_item, apply_decision, scan_item, resume_or_scan,
  attempt_item, fail_item, execute_item, recorded, find_checkpoint, emit_audit,
  state_for_non_allow_action, new_outcome,
}

abbrev is_exclude : TransferAction → Bool
is_exclude TransferAction.exclude = true
is_exclude _ = false

-- What the state of an outcome says of the decision, the bytes and the error.
abbrev pub is_coherent : TransferItemState → Option ScanDecision → ℕ → Option TransferError → Bool
is_coherent TransferItemState.planned d n x = false
is_coherent TransferItemState.allowed (some d) n none = decision_allowed d
is_coherent TransferItemState.blocked (some d) n none =
    not (decision_allowed d) && not (is_exclude d.action) && n == 0
is_coherent TransferItemState.excluded (some d) n none = is_exclude d.action && n == 0
is_coherent TransferItemState.failed none n (some x) = n == 0
is_coherent TransferItemState.skipped d n none = true
is_coherent _ _ _ _ = false

-- The outcome is one of the item, and coherent.
abbrev pub Answers : TransferItem → TransferItemOutcome → Type 0
Answers item o = (o.item ≡ item) × (is_coherent o.state o.decision o.bytes_written o.error ≡ true)

module _ (env : Env) (t : String) (item : TransferItem) where
  new_outcome-Yields :
      (s : TransferItemState) (d : Option ScanDecision) (n : ℕ) (x : Option TransferError)
      (start : ℕ)
      → is_coherent s d n x ≡ true
      → Yields (Answers item) (new_outcome env item s d n x start)
  new_outcome-Yields s d n x start h = record { at = λ w. (refl, h) }

  -- The outcome, and then steps that hand it on.
  handed_on :
      (s : TransferItemState) (d : Option ScanDecision) (n : ℕ) (x : Option TransferError)
      (start : ℕ) (f : TransferItemOutcome → M (Unit {0}))
      → is_coherent s d n x ≡ true
      → Yields (Answers item) (new_outcome env item s d n x start >>= λ o. f o >> pure o)
  handed_on s d n x start f h =
      Yields-then (new_outcome env item s d n x start) (λ o. f o >> pure o)
        (new_outcome-Yields s d n x start h)
        (λ o p. Yields-bind (f o) (λ u. pure o) (λ u. Yields-pure o p))

  skip_item-Yields :
      (row : CheckpointRecord) (n : ℕ) → Yields (Answers item) (skip_item env t item row n)
  unfolding skip_item
  skip_item-Yields row n =
      handed_on TransferItemState.skipped row.outcome.decision row.outcome.bytes_written none n
        (emit_audit env t) refl

  fail_item-Yields : (n : ℕ) (x : TransferError) → Yields (Answers item) (fail_item env t item n x)
  unfolding fail_item
  fail_item-Yields n x =
      handed_on TransferItemState.failed none 0 (some x) n (record_outcome env t) refl

  accept_item-Yields :
      (n : ℕ) (d : ScanDecision)
      → decision_allowed d ≡ true
      → Yields (Answers item) (accept_item env t item n d)
  accept_item-Yields n d h =
      Yields-bind (write_item env item)
        (λ b. new_outcome env item TransferItemState.allowed (some d) b none n >>= recorded env t)
        (λ b. handed_on TransferItemState.allowed (some d) b none n (record_outcome env t) h)

  refused_coherent :
      (d : ScanDecision)
      → decision_allowed d ≡ false
      → is_coherent (state_for_non_allow_action d.action) (some d) 0 none ≡ true
  refused_coherent d h = ground (arith, h)

  refuse_item-Yields :
      (n : ℕ) (d : ScanDecision)
      → decision_allowed d ≡ false
      → Yields (Answers item) (refuse_item env t item n d)
  refuse_item-Yields n d h =
      handed_on (state_for_non_allow_action d.action) (some d) 0 none n (record_outcome env t)
        (refused_coherent d h)

  decided_by :
      (n : ℕ) (d : ScanDecision) (b : Bool)
      → decision_allowed d ≡ b
      → Yields (Answers item) (if b then accept_item env t item n d else refuse_item env t item n d)
  decided_by n d true h = accept_item-Yields n d h
  decided_by n d false h = refuse_item-Yields n d h

  scan_item-Yields : (n : ℕ) → Yields (Answers item) (scan_item env t item n)
  unfolding scan_item apply_decision
  scan_item-Yields n =
      Yields-bind (ask_gate env item) (apply_decision env t item n)
        (λ d. decided_by n d (decision_allowed d) refl)

  resume-Yields :
      (n : ℕ) (o : Option CheckpointRecord) → Yields (Answers item) (resume_or_scan env t item n o)
  resume-Yields n none = scan_item-Yields n
  resume-Yields n (some row) =
      Yields-if (is_state row.state TransferItemState.allowed) (skip_item env t item row n)
        (scan_item env t item n) (skip_item-Yields row n) (scan_item-Yields n)

  pub attempt_item-Yields : (n : ℕ) → Yields (Answers item) (attempt_item env t item n)
  unfolding attempt_item
  attempt_item-Yields n =
      Yields-bind (find_checkpoint env t item) (resume_or_scan env t item n) (resume-Yields n)

  execute_item-Yields : Yields (Answers item) (execute_item env t item)
  unfolding execute_item
  execute_item-Yields =
      Yields-bind (utcnow env) (λ n. rescue (attempt_item env t item n) (fail_item env t item n))
        (λ n.
          Yields-rescue (attempt_item env t item n) (fail_item env t item n) (attempt_item-Yields n)
            (fail_item-Yields n))

-- Whatever the gate, the sink, the audit log and the checkpoints do, an outcome that is returned is of
-- the item, and its state agrees with the decision, the bytes and the error.
pub execute_item-Answers :
    (env : Env) (t : String) (item : TransferItem) (w : World)
    → IfOk (Answers item) (execute_item env t item w).0
execute_item-Answers env t item w = (execute_item-Yields env t item).at w
