-- ===== src/Jobs/Repository/Items/Bulk.antt =====
-- `update_job_items_stages_bulk`: the count that it returns.
use dsx_connect.Prelude.{
  ℕ, ◌+◌, ◌≡◌, refl, ap, ◌∙◌, Bool, List, [], ◌∷◌, arith, eq_iff, is_some, count, if◌then◌else◌,
}
use dsx_connect.Prelude.Dict.{Dict, get, get-put}
use dsx_connect.Jobs.Models.{JobItemRecord}
use dsx_connect.Jobs.World.{World, Env, ok}
use dsx_connect.Jobs.Repository.Items.{
  BulkUpdate, update_job_item_stages, bulk_loop, update_job_items_stages_bulk,
}

abbrev pub is_known : Dict JobItemRecord → BulkUpdate → Bool
unfolding get
is_known d u = is_some (get d u.job_item_id)

-- The items that are there stay the same ones.
known-stages :
    (env : Env) (u v : BulkUpdate) (w : World)
    → is_known
        (update_job_item_stages env u.job_item_id u.stage_records u.state u.error u.completed_at
          w).1.job_items
        v
      ≡ is_known w.job_items v
unfolding update_job_item_stages
known-stages env u v w = grind (arith, get-put, eq_iff)

count-known :
    (d e : Dict JobItemRecord) (us : List BulkUpdate)
    → ((u : BulkUpdate) → is_known d u ≡ is_known e u)
    → count (is_known d) us ≡ count (is_known e) us
count-known d e [] h = refl
count-known d e (u ∷ us) h = ground (arith, count-known d e us h, h u)

after_update : Env → BulkUpdate → World → World
after_update env u w =
    (update_job_item_stages env u.job_item_id u.stage_records u.state u.error u.completed_at w).1

-- The rest of the loop, once the answer for the first update is known.
loop_next :
    (env : Env) (u : BulkUpdate) (us : List BulkUpdate) (n : ℕ) (w : World)
    → (bulk_loop env (u ∷ us) n w).0
      ≡ (bulk_loop env us (if is_known w.job_items u then n + 1 else n) (after_update env u w)).0
unfolding bulk_loop update_job_item_stages after_update is_known
loop_next env u us n w = ground arith

bulk_loop-count :
    (env : Env) (us : List BulkUpdate) (n : ℕ) (w : World)
    → (bulk_loop env us n w).0 ≡ ok (n + count (is_known w.job_items) us)
unfolding bulk_loop after_update
bulk_loop-count env [] n w = ap ok (omega arith)
bulk_loop-count env (u ∷ us) n w = ground (
  arith,
  loop_next env u us n w,
  bulk_loop-count env us (if is_known w.job_items u then n + 1 else n) (after_update env u w),
  count-known (after_update env u w).job_items w.job_items us (λ v. known-stages env u v w),
)

-- The bulk write always returns, and it returns the number of the updates whose item is stored.
pub bulk_count :
    (env : Env) (us : List BulkUpdate) (w : World)
    → (update_job_items_stages_bulk env us w).0 ≡ ok (count (is_known w.job_items) us)
unfolding update_job_items_stages_bulk
bulk_count env us w = bulk_loop-count env us 0 w ∙ ap ok (omega arith)
