-- ===== src/Jobs/Service/Flush/Total.antt =====
-- `flush_outbox` returns, where the bus leaves the outbox as it is.
use Prim.Native.Nat.{◌+◌, ◌-◌, ◌≤◌, min, max}
use dsx_connect.Prelude.{
  count, ℕ, String, ◌≡◌, refl, Bool, true, false, Option, none, some, List, [], ◌∷◌, arith, eq_refl,
  eq_iff, or_else, not, is_empty, all, if◌then◌else◌, ◌&&◌,
}
use dsx_connect.Prelude.Value.{Fields}
use dsx_connect.Prelude.Dict.{get, get-put, values}
use dsx_connect.Jobs.Models.{OutboxRecord, PublishState, Envelope}
use dsx_connect.Jobs.World.{World, Env, M, Result, ok, raised, is_ok, ◌>>=◌, ◌>>◌, pure}
use dsx_connect.Jobs.World.Keeps.{Keeps}
use dsx_connect.Jobs.World.Total.{IsTotal, IsTotal-pure, IsTotal-bind, total_rules, continue-is_ok}
use dsx_connect.Jobs.Repository.JobTable.{list_jobs}
use dsx_connect.Jobs.Repository.Outbox.{
  has_publish_state, claim_outbox_record, claim_outbox_records, get_outbox_record,
  mark_outbox_published, mark_outbox_published_many, mark_outbox_failed,
}
use dsx_connect.Jobs.Service.Lookup.{message_error}
use dsx_connect.Jobs.Service.Parent.Frame.{refresh-JobsOnly, update_job_state-JobsOnly}
use dsx_connect.Jobs.Service.Publish.{
  bus_publish, publish_if_claimed, publish_claimed, publish_outbox_record, item_of,
}
use dsx_connect.Jobs.Service.Publish.Frame.{Stable, Written, publish-Keeps}
use dsx_connect.Jobs.Service.Publish.Total.{publish_for-is_ok, refresh-IsTotal}
use dsx_connect.Jobs.Service.ScanOnly.{refresh_jobs}
use dsx_connect.Jobs.Service.Flush.{
  Outcome, OutboxFlushResult, publish_claimed_rows, unclaimed_outcomes, publish_low_persistence,
  publish_each, publish_rows, low_persistence_row, active_scan_item_count, flush_outbox,
  publish_limit, capacity,
}
use dsx_connect.Jobs.Repository.Fair.{list_outbox_records_fair}
use dsx_connect.Jobs.Service.Flush.Selection.{flush_report}

-- Every row of the outbox lies under its own identifier.
abbrev pub IsKeyed : World → Type 0
IsKeyed w = (id : String) (row : OutboxRecord) → get w.outbox id ≡ some row → row.outbox_id ≡ id

-- The bus leaves the outbox as it is.
abbrev pub IsQuietBus : Env → Type 0
IsQuietBus env = (e : Envelope) (v : World) → (env.publish e v).1.outbox ≡ v.outbox

module _ (env : Env) where
  claim-IsKeyed : (id : String) → Keeps IsKeyed (claim_outbox_record env id)
  unfolding claim_outbox_record
  claim-IsKeyed id = record {
    at = λ w h. λ j row there. grind (arith, get-put, eq_iff id j, h id, h j);
  }

  published-IsKeyed : (id : String) → Keeps IsKeyed (mark_outbox_published env id)
  unfolding mark_outbox_published
  published-IsKeyed id = record {
    at = λ w h. λ j row there. grind (arith, get-put, eq_iff id j, h id, h j);
  }

  failed-IsKeyed :
      (id : String) (error : Option Fields) → Keeps IsKeyed (mark_outbox_failed env id error)
  unfolding mark_outbox_failed
  failed-IsKeyed id error = record {
    at = λ w h. λ j row there. grind (arith, get-put, eq_iff id j, h id, h j);
  }

  IsKeyed-Stable : Stable env IsKeyed
  IsKeyed-Stable = record {
    on_items = λ w t items h. h;
    on_job_state = λ j state error t. record {
      at = λ w h.
          λ id row there. grind (arith, h id row, update_job_state-JobsOnly env j state error t w);
    };
    on_refresh = λ j. record {
      at = λ w h. λ id row there. grind (arith, h id row, refresh-JobsOnly env j w);
    };
  }

  claim-IsTotal : (id : String) → IsTotal (claim_outbox_record env id)
  unfolding claim_outbox_record
  claim-IsTotal id = record { at = λ w. ground arith }

  claim_present :
      (id : String) (claimed : OutboxRecord) (w : World)
      → IsKeyed w
      → (claim_outbox_record env id w).0 ≡ ok (some claimed)
      → get (claim_outbox_record env id w).1.outbox claimed.outbox_id ≡ some claimed
  unfolding claim_outbox_record
  claim_present id claimed w keyed e = grind (arith, get-put, eq_refl, keyed id)

  claimed-is_ok :
      (outbox : OutboxRecord) (u : Bool) (w : World) (o : Option OutboxRecord)
      → IsQuietBus env
      → IsKeyed w
      → (claim_outbox_record env outbox.outbox_id w).0 ≡ ok o
      → is_ok (publish_if_claimed env outbox u o (claim_outbox_record env outbox.outbox_id w).1).0
        ≡ true
  unfolding publish_claimed get_outbox_record
  claimed-is_ok outbox u w none quiet keyed e = refl
  claimed-is_ok outbox u w (some claimed) quiet keyed e =
      publish_for-is_ok env claimed u quiet outbox.job_id (item_of claimed.payload)
        (claim_outbox_record env outbox.outbox_id w).1 claimed
        (claim_present outbox.outbox_id claimed w keyed e)

  pub publish-is_ok :
      (outbox : OutboxRecord) (u : Bool) (w : World)
      → IsQuietBus env
      → IsKeyed w
      → is_ok (publish_outbox_record env outbox u w).0 ≡ true
  unfolding publish_outbox_record
  publish-is_ok outbox u w quiet keyed =
      continue-is_ok (claim_outbox_record env outbox.outbox_id w).0 _
        (claim_outbox_record env outbox.outbox_id w).1 ((claim-IsTotal outbox.outbox_id).at w)
        (λ o e. claimed-is_ok outbox u w o quiet keyed e)

  claim_many-IsTotal : (ids : List String) → IsTotal (claim_outbox_records env ids)
  unfolding claim_outbox_records
  claim_many-IsTotal [] = search total_rules
  claim_many-IsTotal (id ∷ ids) =
      IsTotal-bind _ _ (claim-IsTotal id)
        (λ o. IsTotal-bind _ _ (claim_many-IsTotal ids) (λ claimed. IsTotal-pure _))

  published-IsTotal : (id : String) → IsTotal (mark_outbox_published env id)
  unfolding mark_outbox_published
  published-IsTotal id = record { at = λ w. ground arith }

  published_many-IsTotal : (ids : List String) → IsTotal (mark_outbox_published_many env ids)
  unfolding mark_outbox_published_many
  published_many-IsTotal [] = search total_rules
  published_many-IsTotal (id ∷ ids) =
      IsTotal-bind _ _ (published-IsTotal id)
        (λ o. IsTotal-bind _ _ (published_many-IsTotal ids) (λ rows. IsTotal-pure _))

  failed-IsTotal : (id : String) (error : Option Fields) → IsTotal (mark_outbox_failed env id error)
  unfolding mark_outbox_failed
  failed-IsTotal id error = record { at = λ w. ground arith }

  bus-IsTotal : (e : Envelope) → IsTotal (bus_publish env e)
  bus-IsTotal e = record { at = λ w. refl }

  get_row-IsTotal : (id : String) → IsTotal (get_outbox_record id)
  unfolding get_outbox_record
  get_row-IsTotal id = search total_rules

  claimed_rows-IsTotal : (rows : List OutboxRecord) → IsTotal (publish_claimed_rows env rows)
  unfolding publish_claimed_rows
  claimed_rows-IsTotal [] = search total_rules
  claimed_rows-IsTotal (row ∷ rows) =
      IsTotal-bind _ _ (bus-IsTotal row.payload) (by (claimed_rows-IsTotal rows))
    where
      by :
          IsTotal (publish_claimed_rows env rows)
          → (o : Option String)
          → IsTotal {A = List Outcome × List OutboxRecord} (elim o [
            | none ↦ do (failed, taken) ← publish_claimed_rows env rows; pure (failed, row ∷ taken)
            | some text ↦ do
              marked ←
                  mark_outbox_failed env row.outbox_id (message_error "job_publish_failed" text)
              (failed, taken) ← publish_claimed_rows env rows
              pure ((false, or_else marked row) ∷ failed, taken)
          ])
      by rest none = IsTotal-bind _ _ rest (λ r. IsTotal-pure _)
      by rest (some text) =
          IsTotal-bind _ _ (failed-IsTotal row.outbox_id _)
            (λ marked. IsTotal-bind _ _ rest (λ r. IsTotal-pure _))

  unclaimed-IsTotal : (claimed rows : List OutboxRecord) → IsTotal (unclaimed_outcomes claimed rows)
  unfolding unclaimed_outcomes
  unclaimed-IsTotal claimed [] = search total_rules
  unclaimed-IsTotal claimed (row ∷ rows) =
      IsTotal-bind _ _ (get_row-IsTotal row.outbox_id)
        (λ o. IsTotal-bind _ _ (unclaimed-IsTotal claimed rows) (λ others. IsTotal-pure _))

  refresh_jobs-IsTotal : (ids : List String) → IsTotal (refresh_jobs env ids)
  unfolding refresh_jobs
  refresh_jobs-IsTotal [] = search total_rules
  refresh_jobs-IsTotal (id ∷ ids) =
      IsTotal-bind _ _ (refresh-IsTotal env id) (λ o. refresh_jobs-IsTotal ids)

  low_persistence-IsTotal : (rows : List OutboxRecord) → IsTotal (publish_low_persistence env rows)
  unfolding publish_low_persistence
  low_persistence-IsTotal rows = IsTotal-bind _ _ (claim_many-IsTotal _) (λ claimed.
      IsTotal-bind _ _ (claimed_rows-IsTotal claimed) (λ r.
        IsTotal-bind _ _ (published_many-IsTotal _) (λ published.
          IsTotal-bind _ _ (unclaimed-IsTotal claimed rows) (λ others. IsTotal-pure _))))

module _ (env : Env) (quiet : IsQuietBus env) where
  bus-IsKeyed : (e : Envelope) → Keeps IsKeyed (bus_publish env e)
  bus-IsKeyed e = record { at = λ w h. λ j row there. grind (arith, h j row, quiet e w) }

  IsKeyed-Written : Written env IsKeyed
  IsKeyed-Written = record {
    on_claim = claim-IsKeyed env;
    on_published = published-IsKeyed env;
    on_failed = failed-IsKeyed env;
    on_bus = bus-IsKeyed;
  }

  pub each-is_ok :
      (rows : List OutboxRecord) (w : World) → IsKeyed w → is_ok (publish_each env rows w).0 ≡ true
  unfolding publish_each
  each-is_ok [] w keyed = refl
  each-is_ok (row ∷ rows) w keyed =
      let next = (publish_outbox_record env row true w).1 in
      continue-is_ok (publish_outbox_record env row true w).0 _ next
        (publish-is_ok env row true w quiet keyed)
        (λ o e.
          continue-is_ok (publish_each env rows next).0 _ _
            (each-is_ok rows next (
              (publish-Keeps env IsKeyed (IsKeyed-Stable env) IsKeyed-Written row true).at w keyed))
            (λ os e'. refl))

  pub publish_rows-is_ok :
      (rows : List OutboxRecord) (w : World) → IsKeyed w → is_ok (publish_rows env rows w).0 ≡ true
  publish_rows-is_ok rows w keyed = by (not (is_empty rows) && all low_persistence_row rows)
    where
      by :
          (b : Bool)
          → is_ok ((if b then publish_low_persistence env rows else publish_each env rows) w).0
            ≡ true
      by true = (low_persistence-IsTotal env rows).at w
      by false = each-is_ok rows w keyed

  refresh_then :
      (ids : List String) (r : OutboxFlushResult) → IsTotal (do refresh_jobs env ids; pure r)
  refresh_then ids r = search (total_rules, refresh_jobs-IsTotal env)

  -- The rows that a flush selects in the room that is left.
  abbrev selected : ℕ → Option ℕ → World → List OutboxRecord
  selected limit room w =
      list_outbox_records_fair (some PublishState.pending) (publish_limit limit room) w

  selected-is_ok :
      (limit : ℕ) (room : Option ℕ) (w : World) (k : List Outcome → M OutboxFlushResult)
      → IsKeyed w
      → ((outcomes : List Outcome) → IsTotal (k outcomes))
      → is_ok ((publish_rows env (selected limit room w) >>= k) w).0 ≡ true
  selected-is_ok limit room w k keyed t =
      continue-is_ok (publish_rows env (selected limit room w) w).0 k
        (publish_rows env (selected limit room w) w).1
        (publish_rows-is_ok (selected limit room w) w keyed)
        (λ outcomes e. (t outcomes).at (publish_rows env (selected limit room w) w).1)

  -- A flush returns.
  pub flush_returns :
      (limit : ℕ) (bound : Option ℕ) (w : World)
      → IsKeyed w
      → is_ok (flush_outbox env limit bound w).0 ≡ true
  unfolding flush_outbox active_scan_item_count list_jobs
  flush_returns limit none w keyed =
      selected-is_ok limit none w _ keyed (λ outcomes. refresh_then _ _)
  flush_returns limit (some n) w keyed =
      selected-is_ok limit (capacity (some n) _) w _ keyed (λ outcomes. refresh_then _ _)

-- A result that is not an error is a value.
value_of : {A : Type 0} (r : Result A) → is_ok r ≡ true → (a : A) × (r ≡ ok a)
value_of (ok a) h = (a, refl)
value_of (raised x) h = absurd (ground arith)

-- A flush with a bound on the active scan items, where `active` is their number as the service counts
-- them, over a bus that leaves the outbox as it is, with every row of the outbox under its own
-- identifier. The flush returns, and its result reports that number and the room that is left; the
-- rows that it took up are at most `limit`, fill the room or are all that are pending, whichever is
-- least; with the active items they stay within the bound, unless the items alone are over it
-- already; and no row is counted twice as published or failed.
pub flush_capacity :
    (env : Env) (limit max_active active : ℕ) (w : World)
    → IsQuietBus env
    → IsKeyed w
    → (active_scan_item_count w).0 ≡ ok active
    → (r : OutboxFlushResult) × ((flush_outbox env limit (some max_active) w).0 ≡ ok r)
      × (r.active_scan_items ≡ some active)
      × (r.publish_capacity ≡ some (max_active - active))
      × (r.attempted
          ≡ min limit (
              min
                (max_active - active)
                (count (has_publish_state (some PublishState.pending)) (values w.outbox))))
      × (active + r.attempted ≤ max active max_active)
      × (r.published + r.failed ≤ r.attempted)
flush_capacity env limit max_active active w quiet keyed counted =
    let v =
      value_of (flush_outbox env limit (some max_active) w).0
        (flush_returns env quiet limit (some max_active) w keyed) in
    let f = flush_report env limit max_active active w v.0 counted v.1 in
    (v.0, v.1, f.0, f.1, f.2, f.3, f.4)
