-- ===== src/Jobs/Examples/Parents.antt =====
-- The state of the job, from its items.
use dsx_connect.Prelude.{arith, ◌≡◌, ◌↔◌, ◌<◌, refl, false, some, none, count, All, min, [], ◌∷◌}
use dsx_connect.Prelude.Dict.{get, values}
use dsx_connect.Jobs.Models.{JobState, ItemState}
use dsx_connect.Jobs.World.{World}
use dsx_connect.Jobs.Repository.Items.{list_job_items, of_job}
use dsx_connect.Jobs.Repository.Summary.{summarize_job_items, default_item_limit}
use dsx_connect.Jobs.Repository.Summary.Totals.{counter, in_state, summarize_counts}
use dsx_connect.Jobs.Service.Parent.{failures_error, refresh_parent_job_state}
use dsx_connect.Jobs.Service.Parent.Ladder.{IsOver, IsEnded}
use dsx_connect.Jobs.Service.Parent.Frame.{status}
use dsx_connect.Jobs.Service.Lookup.{marked_cancelled}
use dsx_connect.Jobs.Service.Parent.Ends.{job_state, refresh_completes_iff, refresh_fails_iff}
use dsx_connect.Jobs.Examples.Store.{env, job, item, done_item, store}

queued_not_completed : ¬ (JobState.queued ≡ JobState.completed)
queued_not_completed e = absurd (ground arith)

queued_not_failed : ¬ (JobState.queued ≡ JobState.failed)
queued_not_failed e = absurd (ground arith)

-- The job with its completed item alone.
abbrev done_store : World
done_store = record store { job_items = ("d", done_item) ∷ [] }

refresh_completes_iff_example :
    (job_state (get (refresh_parent_job_state env "j" done_store).1.jobs "j")
      ≡ some JobState.completed)
    ↔ ((marked_cancelled job ≡ false)
        × All IsOver (list_job_items "j" none default_item_limit done_store)
        × (0
            < count
                (in_state ItemState.completed)
                (list_job_items "j" none default_item_limit done_store)))
unfolding get
refresh_completes_iff_example =
    refresh_completes_iff env "j" job done_store refl queued_not_completed

-- The job with an item that failed.
abbrev failed_store : World
failed_store = record store {
  job_items = ("d", done_item) ∷ ("i", record item { state = ItemState.failed }) ∷ [];
}

refresh_fails_iff_example :
    (status (get (refresh_parent_job_state env "j" failed_store).1.jobs "j")
      ≡ some (
        JobState.failed,
        failures_error (
            count
              (in_state ItemState.failed)
              (list_job_items "j" none default_item_limit failed_store)),
      ))
    ↔ ((marked_cancelled job ≡ false)
        × All IsEnded (list_job_items "j" none default_item_limit failed_store)
        × (0
            < count
                (in_state ItemState.failed)
                (list_job_items "j" none default_item_limit failed_store)))
unfolding get
refresh_fails_iff_example = refresh_fails_iff env "j" job failed_store refl queued_not_failed

summarize_counts_example :
    (counter ItemState.queued (summarize_job_items "j" store)
      ≡ count (in_state ItemState.queued) (list_job_items "j" none default_item_limit store))
    × ((summarize_job_items "j" store).total
        ≡ min 1000 (count (of_job "j") (values store.job_items)))
summarize_counts_example = summarize_counts "j" store ItemState.queued
