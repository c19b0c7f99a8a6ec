-- ===== src/Jobs/Repository/Summary/Totals.antt =====
-- `summarize_job_items`: every listed row is counted once, under its own state.
use Prim.Native.Nat.{suc, ◌+◌, min}
use mathlib.Core.Path.{◌∙◌, ap}
use dsx_connect.Prelude.{
  ℕ, String, ◌≡◌, refl, Bool, true, none, List, [], ◌∷◌, arith, length, count, filter,
  if◌then◌else◌, length-take, length-filter,
}
use dsx_connect.Prelude.Dict.{values}
use dsx_connect.Prelude.Sort.{sort_by, ascending, length-sort_by}
use dsx_connect.Jobs.Models.{ItemState, JobItemRecord, JobItemSummary, is_item_state}
use dsx_connect.Jobs.World.{World}
use dsx_connect.Jobs.Repository.Items.{list_job_items, of_job}
use dsx_connect.Jobs.Repository.Summary.{
  add_state, add_rows, no_items_summary, summarize_job_items, default_item_limit,
}

-- The counter of a state.
abbrev pub counter : ItemState → JobItemSummary → ℕ
counter ItemState.accepted s = s.accepted
counter ItemState.publish_pending s = s.publish_pending
counter ItemState.queued s = s.queued
counter ItemState.scanning s = s.scanning
counter ItemState.scanned s = s.scanned
counter ItemState.remediating s = s.remediating
counter ItemState.deliver_pending s = s.deliver_pending
counter ItemState.delivering_result s = s.delivering_result
counter ItemState.completed s = s.completed
counter ItemState.failed s = s.failed
counter ItemState.cancelled s = s.cancelled

abbrev pub in_state : ItemState → JobItemRecord → Bool
in_state state row = is_item_state row.state state

counter-add_state :
    (state row : ItemState) (s : JobItemSummary)
    → counter state (add_state row s)
      ≡ (if is_item_state row state then suc (counter state s) else counter state s)
unfolding add_state
counter-add_state state row s = ground arith

counter-add_rows :
    (state : ItemState) (rows : List JobItemRecord) (s : JobItemSummary)
    → counter state (add_rows rows s) ≡ counter state s + count (in_state state) rows
unfolding add_rows
counter-add_rows state [] s = omega arith
counter-add_rows state (row ∷ rows) s = ground (
  arith,
  counter-add_rows state rows (add_state row.state s),
  counter-add_state state row.state s,
)

total-add_rows :
    (rows : List JobItemRecord) (s : JobItemSummary)
    → (add_rows rows s).total ≡ s.total + length rows
unfolding add_rows add_state
total-add_rows [] s = omega arith
total-add_rows (row ∷ rows) s =
    total-add_rows rows (add_state row.state s) ∙ ground (arith, total-add_state row.state s)
  where
    total-add_state :
        (state : ItemState) (t : JobItemSummary) → (add_state state t).total ≡ suc t.total
    total-add_state state t = ground arith

pub counter-summarize :
    (job_id : String) (w : World) (state : ItemState)
    → counter state (summarize_job_items job_id w)
      ≡ count (in_state state) (list_job_items job_id none default_item_limit w)
unfolding summarize_job_items
counter-summarize job_id w state =
    counter-add_rows state (list_job_items job_id none default_item_limit w) no_items_summary
    ∙ ground arith

pub total-summarize :
    (job_id : String) (w : World)
    → (summarize_job_items job_id w).total
      ≡ length (list_job_items job_id none default_item_limit w)
unfolding summarize_job_items
total-summarize job_id w =
    total-add_rows (list_job_items job_id none default_item_limit w) no_items_summary ∙ omega arith

pub length-list_job_items :
    (job_id : String) (limit : ℕ) (w : World)
    → length (list_job_items job_id none limit w)
      ≡ min limit (count (of_job job_id) (values w.job_items))
unfolding list_job_items
length-list_job_items job_id limit w =
    let rows : List JobItemRecord = filter (of_job job_id) (values w.job_items) in
    omega (
      arith,
      length-take limit (
          sort_by (ascending (λ row. row.item_index))
            (filter (λ (row : JobItemRecord). true) rows)),
      length-sort_by (ascending (λ row. row.item_index))
          (filter (λ (row : JobItemRecord). true) rows),
      length-filter_true rows,
      length-filter (of_job job_id) (values w.job_items),
    )
  where
    length-filter_true :
        (xs : List JobItemRecord) → length (filter (λ (row : JobItemRecord). true) xs) ≡ length xs
    length-filter_true [] = refl
    length-filter_true (x ∷ xs) = ap suc (length-filter_true xs)

-- The summary of a job counts each row of the item listing once, under its own state; the listing
-- has the limit of 1000, so the total is the number of the job's items up to 1000.
pub summarize_counts :
    (job_id : String) (w : World) (state : ItemState)
    → (counter state (summarize_job_items job_id w)
        ≡ count (in_state state) (list_job_items job_id none default_item_limit w))
      × ((summarize_job_items job_id w).total
          ≡ min 1000 (count (of_job job_id) (values w.job_items)))
summarize_counts job_id w state = (
  counter-summarize job_id w state,
  total-summarize job_id w ∙ length-list_job_items job_id default_item_limit w,
)
