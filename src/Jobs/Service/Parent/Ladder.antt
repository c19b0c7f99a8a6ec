-- ===== src/Jobs/Service/Parent/Ladder.antt =====
-- When `_refresh_parent_job_state` ends a job.
use Prim.Native.Nat.{◌+◌, ◌≤◌, ◌<◌}
use dsx_connect.Prelude.{
  ℕ, String, ◌≡◌, ◌↔◌, ◌⊎◌, refl, Bool, none, List, [], ◌∷◌, arith, length, count, All, inl,
}
use dsx_connect.Jobs.Models.{JobState, ItemState, JobItemRecord, JobItemSummary}
use dsx_connect.Jobs.World.{World}
use dsx_connect.Jobs.Repository.Items.{list_job_items}
use dsx_connect.Jobs.Repository.Summary.{summarize_job_items, default_item_limit}
use dsx_connect.Jobs.Repository.Summary.Totals.{in_state, counter-summarize, total-summarize}
use dsx_connect.Jobs.Service.Parent.{ParentUpdate, finish, parent_update, failures_error}

abbrev pub IsOver : JobItemRecord → Type 0
IsOver row = (row.state ≡ ItemState.completed) ⊎ (row.state ≡ ItemState.cancelled)

abbrev over_count : List JobItemRecord → ℕ
over_count rows =
    count (in_state ItemState.completed) rows + count (in_state ItemState.cancelled) rows

over-le-length : (rows : List JobItemRecord) → over_count rows ≤ length rows
over-le-length [] = omega arith
over-le-length (row ∷ rows) = ground (arith, over-le-length rows)

All-IsOver : (rows : List JobItemRecord) → over_count rows ≡ length rows → All IsOver rows
All-IsOver [] h = tt
All-IsOver (row ∷ rows) h =
    (ground (arith, over-le-length rows), All-IsOver rows (ground (arith, over-le-length rows)))

over_count-All : (rows : List JobItemRecord) → All IsOver rows → over_count rows ≡ length rows
over_count-All [] h = refl
over_count-All (row ∷ rows) h = ground (arith, over_count-All rows h.1)

abbrev pub IsEnded : JobItemRecord → Type 0
IsEnded row = IsOver row ⊎ (row.state ≡ ItemState.failed)

abbrev ended_count : List JobItemRecord → ℕ
ended_count rows = over_count rows + count (in_state ItemState.failed) rows

ended-le-length : (rows : List JobItemRecord) → ended_count rows ≤ length rows
ended-le-length [] = omega arith
ended-le-length (row ∷ rows) = ground (arith, ended-le-length rows)

All-IsEnded : (rows : List JobItemRecord) → ended_count rows ≡ length rows → All IsEnded rows
All-IsEnded [] h = tt
All-IsEnded (row ∷ rows) h =
    (ground (arith, ended-le-length rows), All-IsEnded rows (ground (arith, ended-le-length rows)))

-- No row is in a state in which the ladder goes on.
abbrev busy_count : List JobItemRecord → ℕ
busy_count rows =
    count (in_state ItemState.publish_pending) rows
    + count (in_state ItemState.scanning) rows
    + count (in_state ItemState.remediating) rows
    + count (in_state ItemState.delivering_result) rows

All-IsEnded-counts :
    (rows : List JobItemRecord)
    → All IsEnded rows
    → (busy_count rows ≡ 0) × (ended_count rows ≡ length rows)
All-IsEnded-counts [] h = (refl, refl)
All-IsEnded-counts (row ∷ rows) h = ground (arith, All-IsEnded-counts rows h.1)

All-IsOver-IsEnded : (rows : List JobItemRecord) → All IsOver rows → All IsEnded rows
All-IsOver-IsEnded [] h = tt
All-IsOver-IsEnded (row ∷ rows) h = (inl h.0, All-IsOver-IsEnded rows h.1)

-- The counters that the ladder reads, as counts of the rows.
record Facts (rows : List JobItemRecord) (s : JobItemSummary) : Type 0 where
  publish_pending : s.publish_pending ≡ count (in_state ItemState.publish_pending) rows
  scanning : s.scanning ≡ count (in_state ItemState.scanning) rows
  remediating : s.remediating ≡ count (in_state ItemState.remediating) rows
  delivering_result : s.delivering_result ≡ count (in_state ItemState.delivering_result) rows
  completed : s.completed ≡ count (in_state ItemState.completed) rows
  failed : s.failed ≡ count (in_state ItemState.failed) rows
  cancelled : s.cancelled ≡ count (in_state ItemState.cancelled) rows
  total : s.total ≡ length rows
  over : over_count rows ≤ length rows
  ended : ended_count rows ≤ length rows

module _ (job_id : String) (w : World) (errors : Bool) where
  abbrev pub listed : List JobItemRecord
  listed = list_job_items job_id none default_item_limit w

  abbrev pub listed_update : ParentUpdate
  listed_update = parent_update (summarize_job_items job_id w) errors

  listed-Facts : Facts listed (summarize_job_items job_id w)
  listed-Facts = record {
    publish_pending = counter-summarize job_id w ItemState.publish_pending;
    scanning = counter-summarize job_id w ItemState.scanning;
    remediating = counter-summarize job_id w ItemState.remediating;
    delivering_result = counter-summarize job_id w ItemState.delivering_result;
    completed = counter-summarize job_id w ItemState.completed;
    failed = counter-summarize job_id w ItemState.failed;
    cancelled = counter-summarize job_id w ItemState.cancelled;
    total = total-summarize job_id w;
    over = over-le-length listed;
    ended = ended-le-length listed;
  }

  -- A refresh fails a job exactly when every listed item has ended and one of them failed; the
  -- error then carries the number of the failed ones.
  pub fails_iff :
      (listed_update
        ≡ finish JobState.failed (failures_error (count (in_state ItemState.failed) listed)))
      ↔ (All IsEnded listed × (0 < count (in_state ItemState.failed) listed))
  unfolding parent_update
  fails_iff =
      let f = listed-Facts in
      (
        λ h. (All-IsEnded listed (ground arith), ground arith),
        λ h. ground (arith, All-IsEnded-counts listed h.0),
      )

  -- A refresh completes a job exactly when every listed item is completed or cancelled, and one is
  -- completed.
  pub completes_iff :
      (listed_update ≡ finish JobState.completed none)
      ↔ (All IsOver listed × (0 < count (in_state ItemState.completed) listed))
  unfolding parent_update
  completes_iff =
      let f = listed-Facts in
      (
        λ h. (All-IsOver listed (ground arith), ground arith),
        λ h. ground (
          arith,
          All-IsEnded-counts listed (All-IsOver-IsEnded listed h.0),
          over_count-All listed h.0,
        ),
      )
