-- ===== src/Transfer/Engine/Log.antt =====
-- What a run sends to the gate and to the sink.
use dsx_connect.Prelude.{
  ℕ, String, ◌≡◌, refl, sym, ap, ◌∙◌, Bool, true, false, length, Option, none, some, List, [], ◌∷◌,
  ◌++◌, append-nil, append_assoc, ◌+◌, subst, if◌then◌else◌,
}
use dsx_connect.Transfer.Models.{TransferItem, TransferItemOutcome, TransferPlan, TransferError}
use dsx_connect.Transfer.World.{
  World, Env, M, Result, ok, raised, Call, progress_reported, continue, ◌>>=◌, pure, check,
  report_progress, ◌>>◌, utcnow,
}
use dsx_connect.Transfer.Engine.{
  execute_item, record_progress, execute_items, execute_plan, new_report,
}
use dsx_connect.Transfer.Engine.Calls.{IsItemTrace, Adds, execute_item-Adds}

-- The calls that a run over the items may make, up to where it stops: those of each item in turn, with
-- the progress reported in between.
pub data IsPlanTrace : List TransferItem → List Call → Type 0 where
  ended : (items : List TransferItem) → IsPlanTrace items []
  next :
      (item : TransferItem) (items : List TransferItem) (c rest : List Call)
      → IsItemTrace item c
      → IsPlanTrace items rest
      → IsPlanTrace (item ∷ items) (c ++ rest)
  noted :
      (items : List TransferItem) (k n : ℕ) (o : TransferItemOutcome) (rest : List Call)
      → IsPlanTrace items rest
      → IsPlanTrace items (progress_reported k n o ∷ rest)

abbrev pub AddsPlan : List TransferItem → List Call → List Call → Type 0
AddsPlan items before after = (c : List Call) × (after ≡ before ++ c) × IsPlanTrace items c

AddsPlan-none : (items : List TransferItem) (a : List Call) → AddsPlan items a a
AddsPlan-none items a = ([], sym (append-nil a), ended items)

AddsPlan-item :
    (item : TransferItem) (items : List TransferItem) (a b c : List Call)
    → Adds item a b
    → AddsPlan items b c
    → AddsPlan (item ∷ items) a c
AddsPlan-item item items a b c (u, p, h) (v, q, k) =
    (u ++ v, q ∙ ap (◌++ v) p ∙ append_assoc a u v, next item items u v h k)

AddsPlan-noted :
    (items : List TransferItem) (k n : ℕ) (o : TransferItemOutcome) (a b : List Call)
    → AddsPlan items (a ++ (progress_reported k n o ∷ [])) b
    → AddsPlan items a b
AddsPlan-noted items k n o a b (v, q, h) = (
  progress_reported k n o ∷ v,
  q ∙ append_assoc a (progress_reported k n o ∷ []) v,
  noted items k n o v h,
)

module _ (env : Env) (items : List TransferItem) (k n : ℕ) (o : TransferItemOutcome) where
  -- After the progress was reported.
  progress_told :
      {A : Type 0} (f : ℕ → M A) (x : Option TransferError) (v : World)
      → ((l : ℕ) (w : World) → AddsPlan items w.calls (f l w).1.calls)
      → AddsPlan items v.calls (((check x >> pure (k + 1)) >>= f) v).1.calls
  progress_told f none v h = h (k + 1) v
  progress_told f (some x) v h = AddsPlan-none items v.calls

  flagged :
      {A : Type 0} (f : ℕ → M A) (b : Bool) (w : World)
      → ((l : ℕ) (w : World) → AddsPlan items w.calls (f l w).1.calls)
      → AddsPlan items w.calls
          (((if b then report_progress env (k + 1) n o >> pure (k + 1) else pure k) >>= f)
            w).1.calls
  flagged f false w h = h k w
  flagged f true w h =
      AddsPlan-noted items (k + 1) n o w.calls
        ((((report_progress env (k + 1) n o >> pure (k + 1)) >>= f) w).1.calls)
        (progress_told f (env.progress (k + 1) n o w.ticks)
          (record w { calls = w.calls ++ (progress_reported (k + 1) n o ∷ []) }) h)

-- The rest of a run, when the first item has come to a result.
module _ (env : Env) (t : String) (n k : ℕ) (items : List TransferItem) where
  collected :
      (o : TransferItemOutcome) (r : Result (List TransferItemOutcome)) (v : World)
      → (continue r (λ rest. pure (o ∷ rest)) v).1 ≡ v
  collected o (ok os) v = refl
  collected o (raised x) v = refl

  continued :
      (r : Result TransferItemOutcome) (v : World)
      → ((l : ℕ) (w : World) → AddsPlan items w.calls (execute_items env t l n items w).1.calls)
      → AddsPlan items v.calls
          (continue r
            (λ o. record_progress env k n o >>= λ l.
              execute_items env t l n items >>= λ rest. pure (o ∷ rest))
            v).1.calls
  continued (raised x) v h = AddsPlan-none items v.calls
  continued (ok o) v h =
      flagged env items k n o (λ l. execute_items env t l n items >>= λ rest. pure (o ∷ rest))
        env.with_progress v
        (λ l w.
          subst (λ (u : World). AddsPlan items w.calls u.calls)
            (sym
              (collected o (execute_items env t l n items w).0 (execute_items env t l n items w).1))
            (h l w))

execute_items-AddsPlan :
    (env : Env) (t : String) (k n : ℕ) (items : List TransferItem) (w : World)
    → AddsPlan items w.calls (execute_items env t k n items w).1.calls
unfolding execute_items
execute_items-AddsPlan env t k n [] w = AddsPlan-none [] w.calls
execute_items-AddsPlan env t k n (item ∷ items) w =
    let v = execute_item env t item w in
    AddsPlan-item item items w.calls v.1.calls (execute_items env t k n (item ∷ items) w).1.calls
      (execute_item-Adds env t item w)
      (continued env t n k items v.0 v.1 (λ l u. execute_items-AddsPlan env t l n items u))

report_made :
    (env : Env) (plan : TransferPlan) (n : ℕ) (r : Result (List TransferItemOutcome)) (v : World)
    → (continue r (new_report env plan n) v).1.calls ≡ v.calls
report_made env plan n (ok os) v = refl
report_made env plan n (raised x) v = refl

-- What a run adds to the calls, also when it raises before its end: for each item in turn nothing, or an
-- answer of the gate that did not let the item pass, or one that did and then one write of the same
-- item; with the progress reported in between.
pub execute_plan-AddsPlan :
    (env : Env) (plan : TransferPlan) (w : World)
    → AddsPlan plan.items w.calls (execute_plan env plan w).1.calls
unfolding execute_plan
execute_plan-AddsPlan env plan w =
    let v = execute_items env plan.transfer_id 0 (length plan.items) plan.items (utcnow env w).1 in
    subst (λ (c : List Call). AddsPlan plan.items w.calls c)
      (sym (report_made env plan (env.clock w.ticks) v.0 v.1))
      (execute_items-AddsPlan env plan.transfer_id 0 (length plan.items) plan.items
        (utcnow env w).1)
