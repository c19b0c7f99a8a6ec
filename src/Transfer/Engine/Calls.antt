-- ===== src/Transfer/Engine/Calls.antt =====
-- What one item sends to the gate and to the sink.
use dsx_connect.Prelude.{
  ℕ, String, ◌≡◌, refl, sym, ◌∙◌, Bool, true, false, Option, none, some, List, [], ◌∷◌, ◌++◌, arith,
  Bool-cases, inl, inr, append-nil, append_assoc, if◌then◌else◌, subst,
}
use dsx_connect.Transfer.Models.{
  TransferItem, TransferItemOutcome, ScanDecision, CheckpointRecord, TransferError,
  decision_allowed, is_state, TransferItemState,
}
use dsx_connect.Transfer.World.{
  World, Env, M, Result, ok, raised, Call, gate_decided, sink_wrote, continue, handle, utcnow,
}
use dsx_connect.Transfer.Engine.{
  record_outcome, skip_item, accept_item, refuse_item, apply_decision, scan_item, resume_or_scan,
  attempt_item, fail_item, execute_item, find_checkpoint, emit_audit,
}

-- Does the answer of the gate let the item pass?
abbrev pub passes : Result ScanDecision → Bool
passes (ok d) = decision_allowed d
passes (raised x) = false

-- The calls that one item may make.
pub data IsItemTrace (item : TransferItem) : List Call → Type 0 where
  untouched : IsItemTrace item []
  refused :
      (r : Result ScanDecision) → passes r ≡ false → IsItemTrace item (gate_decided item r ∷ [])
  admitted :
      (d : ScanDecision) (r : Result ℕ)
      → decision_allowed d ≡ true
      → IsItemTrace item (gate_decided item (ok d) ∷ sink_wrote item r ∷ [])

record_outcome-calls :
    (env : Env) (t : String) (o : TransferItemOutcome) (w : World)
    → (record_outcome env t o w).1.calls ≡ w.calls
unfolding record_outcome
record_outcome-calls env t o w = ground arith

pub skip_item-calls :
    (env : Env) (t : String) (item : TransferItem) (row : CheckpointRecord) (n : ℕ) (w : World)
    → (skip_item env t item row n w).1.calls ≡ w.calls
unfolding skip_item emit_audit
skip_item-calls env t item row n w = ground arith

find_checkpoint-calls :
    (env : Env) (t : String) (item : TransferItem) (w : World)
    → (find_checkpoint env t item w).1.calls ≡ w.calls
unfolding find_checkpoint
find_checkpoint-calls env t item w = ground arith

fail_item-calls :
    (env : Env) (t : String) (item : TransferItem) (n : ℕ) (x : TransferError) (w : World)
    → (fail_item env t item n x w).1.calls ≡ w.calls
unfolding fail_item record_outcome
fail_item-calls env t item n x w = ground arith

accept_item-calls :
    (env : Env) (t : String) (item : TransferItem) (n : ℕ) (d : ScanDecision) (w : World)
    → (accept_item env t item n d w).1.calls
      ≡ w.calls ++ (sink_wrote item (env.write item w.ticks) ∷ [])
unfolding record_outcome
accept_item-calls env t item n d w = ground arith

refuse_item-calls :
    (env : Env) (t : String) (item : TransferItem) (n : ℕ) (d : ScanDecision) (w : World)
    → (refuse_item env t item n d w).1.calls ≡ w.calls
unfolding record_outcome
refuse_item-calls env t item n d w = ground arith

apply-allowed :
    (env : Env) (t : String) (item : TransferItem) (n : ℕ) (d : ScanDecision) (w : World)
    → decision_allowed d ≡ true
    → (apply_decision env t item n d w).1.calls
      ≡ w.calls ++ (sink_wrote item (env.write item w.ticks) ∷ [])
unfolding apply_decision
apply-allowed env t item n d w h = grind (arith, accept_item-calls)

apply-refused :
    (env : Env) (t : String) (item : TransferItem) (n : ℕ) (d : ScanDecision) (w : World)
    → decision_allowed d ≡ false
    → (apply_decision env t item n d w).1.calls ≡ w.calls
unfolding apply_decision
apply-refused env t item n d w h = grind (arith, refuse_item-calls)

-- The calls after are those before and a trace of the item.
abbrev pub Adds : TransferItem → List Call → List Call → Type 0
Adds item before after = (c : List Call) × (after ≡ before ++ c) × IsItemTrace item c

-- The answer of the gate is noted.
abbrev asked : TransferItem → Result ScanDecision → World → World
asked item r w = record w { calls = w.calls ++ (gate_decided item r ∷ []) }

decided :
    (env : Env) (t : String) (item : TransferItem) (n : ℕ) (r : Result ScanDecision) (w : World)
    → Adds item w.calls (continue r (apply_decision env t item n) (asked item r w)).1.calls
decided env t item n (raised x) w =
    (gate_decided item (raised x) ∷ [], refl, refused (raised x) refl)
decided env t item n (ok d) w = elim (Bool-cases (decision_allowed d)) [
  | inl h ↦ (
    gate_decided item (ok d) ∷ sink_wrote item (env.write item w.ticks) ∷ [],
    grind (arith, apply-allowed, append_assoc),
    admitted d (env.write item w.ticks) h,
  )
  | inr h ↦ (
    gate_decided item (ok d) ∷ [],
    apply-refused env t item n d (asked item (ok d) w) h,
    refused (ok d) h,
  )
]

scan_item-Adds :
    (env : Env) (t : String) (item : TransferItem) (n : ℕ) (w : World)
    → Adds item w.calls (scan_item env t item n w).1.calls
unfolding scan_item
scan_item-Adds env t item n w = decided env t item n (env.decide item w.ticks) w

Adds-if :
    {A : Type 0} (item : TransferItem) (b : Bool) (m n : M A) (w : World)
    → Adds item w.calls (m w).1.calls
    → Adds item w.calls (n w).1.calls
    → Adds item w.calls ((if b then m else n) w).1.calls
Adds-if item true m n w h k = h
Adds-if item false m n w h k = k

-- A method that calls nothing.
Adds-quiet :
    (item : TransferItem) (before after : List Call) → after ≡ before → Adds item before after
Adds-quiet item before after h = ([], h ∙ sym (append-nil before), untouched)

resume-Adds :
    (env : Env) (t : String) (item : TransferItem) (n : ℕ) (o : Option CheckpointRecord) (w : World)
    → Adds item w.calls (resume_or_scan env t item n o w).1.calls
resume-Adds env t item n none w = scan_item-Adds env t item n w
resume-Adds env t item n (some row) w =
    Adds-if item (is_state row.state TransferItemState.allowed) (skip_item env t item row n)
      (scan_item env t item n) w
      (Adds-quiet item w.calls (skip_item env t item row n w).1.calls
        (skip_item-calls env t item row n w))
      (scan_item-Adds env t item n w)

-- A quiet step before, and one after.
Adds-after : (item : TransferItem) (a b c : List Call) → b ≡ a → Adds item b c → Adds item a c
Adds-after item a b c h k = subst (λ (x : List Call). Adds item x c) h k

Adds-before : (item : TransferItem) (a b c : List Call) → c ≡ b → Adds item a b → Adds item a c
Adds-before item a b c h k = subst (λ (x : List Call). Adds item a x) (sym h) k

attempted :
    (env : Env) (t : String) (item : TransferItem) (n : ℕ) (r : Result (Option CheckpointRecord))
    (w : World)
    → Adds item w.calls (continue r (resume_or_scan env t item n) w).1.calls
attempted env t item n (ok o) w = resume-Adds env t item n o w
attempted env t item n (raised x) w = Adds-quiet item w.calls w.calls refl

attempt_item-Adds :
    (env : Env) (t : String) (item : TransferItem) (n : ℕ) (w : World)
    → Adds item w.calls (attempt_item env t item n w).1.calls
unfolding attempt_item
attempt_item-Adds env t item n w =
    let v = find_checkpoint env t item w in
    Adds-after item w.calls v.1.calls (attempt_item env t item n w).1.calls
      (find_checkpoint-calls env t item w) (attempted env t item n v.0 v.1)

handled :
    (env : Env) (t : String) (item : TransferItem) (n : ℕ) (r : Result TransferItemOutcome)
    (w : World)
    → (handle r (fail_item env t item n) w).1.calls ≡ w.calls
handled env t item n (ok o) w = refl
handled env t item n (raised x) w = fail_item-calls env t item n x w

-- What one item adds to the calls: nothing, or the answer of the gate alone, which did not let the item
-- pass, or one that did and then one write. So nothing is written without a decision that allows
-- it, also when the audit log, the checkpoints, the gate or the sink raise.
pub execute_item-Adds :
    (env : Env) (t : String) (item : TransferItem) (w : World)
    → Adds item w.calls (execute_item env t item w).1.calls
unfolding execute_item
execute_item-Adds env t item w =
    let n = env.clock w.ticks in
    let v = attempt_item env t item n (utcnow env w).1 in
    Adds-before item w.calls v.1.calls (execute_item env t item w).1.calls
      (handled env t item n v.0 v.1) (attempt_item-Adds env t item n (utcnow env w).1)
