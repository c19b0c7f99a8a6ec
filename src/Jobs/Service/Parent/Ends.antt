-- ===== src/Jobs/Service/Parent/Ends.antt =====
-- The jobs that `_refresh_parent_job_state` ends.
use dsx_connect.Prelude.{
  ℕ, String, ◌≡◌, ◌↔◌, ◌<◌, refl, Bool, false, Option, none, some, arith, count, All, Bool-cases,
  inl, inr, ap, sym, ◌∙◌,
}
use dsx_connect.Prelude.Value.{Fields}
use dsx_connect.Prelude.Dict.{get}
use dsx_connect.Jobs.Models.{JobState, ItemState, JobRecord, JobItemSummary}
use dsx_connect.Jobs.World.{World, Env}
use dsx_connect.Jobs.Repository.Items.{list_job_items}
use dsx_connect.Jobs.Repository.Summary.{summarize_job_items, default_item_limit}
use dsx_connect.Jobs.Repository.Summary.Totals.{in_state}
use dsx_connect.Jobs.Service.Lookup.{marked_cancelled}
use dsx_connect.Jobs.Service.Parent.{
  finish, parent_update, failures_error, refresh_parent_job_state, pending_errors,
}
use dsx_connect.Jobs.Service.Parent.Frame.{status, applied, refresh_cancelled, refresh_by_ladder}
use dsx_connect.Jobs.Service.Parent.Ladder.{IsOver, IsEnded, completes_iff, fails_iff}

-- The state of a stored job.
abbrev pub job_state : Option JobRecord → Option JobState
job_state none = none
job_state (some job) = some job.state

abbrev first : Option (JobState × Option Fields) → Option JobState
first none = none
first (some (state, error)) = some state

first-status : (o : Option JobRecord) → first (status o) ≡ job_state o
first-status none = refl
first-status (some job) = refl

-- Only the last branches of the ladder complete or fail a job.
applied_completes :
    (s : JobItemSummary) (errors : Bool) (job : JobRecord)
    → ¬ (job.state ≡ JobState.completed)
    → (first (applied (parent_update s errors) job) ≡ some JobState.completed)
      ↔ (parent_update s errors ≡ finish JobState.completed none)
unfolding parent_update
applied_completes s errors job before = (λ h. ground arith, λ h. ground arith)

applied_fails :
    (s : JobItemSummary) (errors : Bool) (job : JobRecord) (n : ℕ)
    → ¬ (job.state ≡ JobState.failed)
    → (applied (parent_update s errors) job ≡ some (JobState.failed, failures_error n))
      ↔ (parent_update s errors ≡ finish JobState.failed (failures_error n))
unfolding parent_update
applied_fails s errors job n before = (λ h. ground arith, λ h. ground arith)

module _ (env : Env) (job_id : String) (job : JobRecord) (w : World)
    (found : get w.jobs job_id ≡ some job) where
  abbrev refreshed : Option JobRecord
  refreshed = get (refresh_parent_job_state env job_id w).1.jobs job_id

  -- A refresh of a stored job that is not completed yet completes it exactly when the job does not
  -- count as cancelled, every listed item is completed or cancelled, and one is completed.
  pub refresh_completes_iff :
      ¬ (job.state ≡ JobState.completed)
      → (job_state (get (refresh_parent_job_state env job_id w).1.jobs job_id)
          ≡ some JobState.completed)
        ↔ ((marked_cancelled job ≡ false)
            × All IsOver (list_job_items job_id none default_item_limit w)
            × (0
                < count
                    (in_state ItemState.completed)
                    (list_job_items job_id none default_item_limit w)))
  refresh_completes_iff before = elim (Bool-cases (marked_cancelled job)) [
    | inl marked ↦
        let h =
          sym (first-status refreshed)
          ∙ ap first (refresh_cancelled env job_id job w found marked) in
        (λ done. absurd (ground arith), λ done. absurd (ground arith))
    | inr unmarked ↦
        let h =
          sym (first-status refreshed)
          ∙ ap first (refresh_by_ladder env job_id job w found unmarked) in
        let a =
          applied_completes (summarize_job_items job_id w) (pending_errors job_id w) job before in
        let c = completes_iff job_id w (pending_errors job_id w) in
        (
          λ done. let r = c.0 (a.0 (sym h ∙ done)) in (unmarked, r.0, r.1),
          λ done. h ∙ a.1 (c.1 (done.1, done.2)),
        )
  ]

  -- A refresh of a stored job that has not failed yet fails it, with an error that says how many of
  -- its items failed, exactly when the job does not count as cancelled, every listed item has
  -- ended, and one of them failed.
  pub refresh_fails_iff :
      ¬ (job.state ≡ JobState.failed)
      → (status (get (refresh_parent_job_state env job_id w).1.jobs job_id)
          ≡ some (
            JobState.failed,
            failures_error (
                count
                  (in_state ItemState.failed)
                  (list_job_items job_id none default_item_limit w)),
          ))
        ↔ ((marked_cancelled job ≡ false)
            × All IsEnded (list_job_items job_id none default_item_limit w)
            × (0
                < count
                    (in_state ItemState.failed)
                    (list_job_items job_id none default_item_limit w)))
  refresh_fails_iff before = elim (Bool-cases (marked_cancelled job)) [
    | inl marked ↦
        let h = refresh_cancelled env job_id job w found marked in
        (λ done. absurd (ground arith), λ done. absurd (ground arith))
    | inr unmarked ↦
        let h = refresh_by_ladder env job_id job w found unmarked in
        let a =
          applied_fails (summarize_job_items job_id w) (pending_errors job_id w) job
            (count (in_state ItemState.failed) (list_job_items job_id none default_item_limit w))
            before in
        let c = fails_iff job_id w (pending_errors job_id w) in
        (
          λ done. let r = c.0 (a.0 (sym h ∙ done)) in (unmarked, r.0, r.1),
          λ done. h ∙ a.1 (c.1 (done.1, done.2)),
        )
  ]
