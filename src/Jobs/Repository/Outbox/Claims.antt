-- ===== src/Jobs/Repository/Outbox/Claims.antt =====
-- The claim of an outbox row is exclusive, and the marks that end it.
use dsx_connect.Prelude.{
  ℕ, String, ◌≡◌, Bool, true, false, Option, none, some, List, [], ◌∷◌, arith, eq_iff, eq_refl, ◌+◌,
}
use dsx_connect.Prelude.Value.{Fields}
use dsx_connect.Prelude.Dict.{get, get-put}
use dsx_connect.Jobs.Models.{PublishState, OutboxRecord, is_publish_state}
use dsx_connect.Jobs.World.{World, Env, ok}
use dsx_connect.Jobs.Repository.Outbox.{claim_outbox_record, mark_outbox_failed}

-- Is the row there to be claimed?
abbrev pub claimable : Option OutboxRecord → Bool
claimable none = false
claimable (some row) = is_publish_state row.publish_state PublishState.pending

claimable-claim :
    (env : Env) (id j : String) (w : World)
    → claimable (get w.outbox j) ≡ false
    → claimable (get (claim_outbox_record env id w).1.outbox j) ≡ false
unfolding claim_outbox_record
claimable-claim env id j w h = grind (arith, get-put, eq_iff)

claimable-claim_self :
    (env : Env) (id : String) (w : World)
    → claimable (get (claim_outbox_record env id w).1.outbox id) ≡ false
unfolding claim_outbox_record
claimable-claim_self env id w = grind (arith, get-put, eq_refl)

claim_none :
    (env : Env) (id : String) (w : World)
    → claimable (get w.outbox id) ≡ false
    → claim_outbox_record env id w ≡ (ok none, w)
unfolding claim_outbox_record
claim_none env id w h = ground arith

-- Any run of claims, by any tasks: each with its own readings of the clock.
unfoldable pub claim_all : List (Env × String) → World → World
claim_all [] w = w
claim_all ((env, id) ∷ rest) w = claim_all rest (claim_outbox_record env id w).1

claimable-claim_all :
    (calls : List (Env × String)) (j : String) (w : World)
    → claimable (get w.outbox j) ≡ false
    → claimable (get (claim_all calls w).outbox j) ≡ false
unfolding claim_all
claimable-claim_all [] j w h = h
claimable-claim_all ((env, id) ∷ rest) j w h =
    claimable-claim_all rest j (claim_outbox_record env id w).1 (claimable-claim env id j w h)

-- Once a row was claimed, a second claim gets nothing and writes nothing, whatever other claims
-- came in between.
pub claim_exclusive :
    (env env' : Env) (id : String) (calls : List (Env × String)) (w : World)
    → claim_outbox_record env' id (claim_all calls (claim_outbox_record env id w).1)
      ≡ (ok none, claim_all calls (claim_outbox_record env id w).1)
claim_exclusive env env' id calls w =
    claim_none env' id (claim_all calls (claim_outbox_record env id w).1) (
      claimable-claim_all calls id (claim_outbox_record env id w).1 (claimable-claim_self env id w))

-- What an outbox row says of its delivery.
abbrev pub delivery : Option OutboxRecord → Option (PublishState × ℕ × Option Fields)
delivery none = none
delivery (some row) = some (row.publish_state, row.publish_attempts, row.last_error)

-- A stored row that is marked failed can be claimed again, and the claim leaves it publishing with
-- the attempt counted and the error on record.
pub fail_then_claim :
    (env env' : Env) (id : String) (row : OutboxRecord) (error : Option Fields) (w : World)
    → get w.outbox id ≡ some row
    → (claimable (get (mark_outbox_failed env id error w).1.outbox id) ≡ true)
      × (delivery
            (get (claim_outbox_record env' id (mark_outbox_failed env id error w).1).1.outbox id)
          ≡ some (PublishState.publishing, row.publish_attempts + 1, error))
unfolding mark_outbox_failed claim_outbox_record
fail_then_claim env env' id row error w h = grind (arith, get-put, eq_refl)
