-- ===== src/Jobs/Service/Parent.antt =====
-- dsx_connect_ng/dsx_connect_ng/jobs/service.py: `_refresh_parent_job_state`, the state of a job from its items.
pub mod Ladder
pub mod Frame
pub mod Ends
use dsx_connect.Prelude.{
  ℕ, ◌+◌, String, Bool, true, false, Option, none, some, List, if◌then◌else◌, ltb, ◌==◌, ◌||◌, any,
  filter,
}
use dsx_connect.Prelude.Value.{Fields, no_fields, field, str, num, has_fields, or_empty}
use dsx_connect.Jobs.Models.{
  JobState, ItemState, JobItemRecord, JobItemSummary, JobRecord, is_item_state,
}
use dsx_connect.Jobs.World.{World, Env, M, ◌>>=◌, ◌>>◌, pure, gets, utcnow}
use dsx_connect.Jobs.Repository.JobTable.{get_job, update_job_state}
use dsx_connect.Jobs.Repository.Items.{list_job_items}
use dsx_connect.Jobs.Repository.Summary.{summarize_job_items, default_item_limit}
use dsx_connect.Jobs.Service.Lookup.{code_error, marked_cancelled}

-- What the ladder of the method writes: nothing, a state that goes on, or a state that ends the job.
pub data ParentUpdate : Type 0 where
  keep : ParentUpdate
  set : JobState → Option Fields → ParentUpdate
  finish : JobState → Option Fields → ParentUpdate

abbrev pub failures_error : ℕ → Option Fields
failures_error failed =
    some (field "code" (str "batch_item_failures") (field "failedItemCount" (num failed) no_fields))

-- The ladder below the cancelled case; `errors` says that a publish-pending item has an error.
unfoldable pub parent_update : JobItemSummary → Bool → ParentUpdate
parent_update summary errors =
    if summary.total == 0
    then keep
    else if ltb 0 summary.publish_pending
    then set JobState.publish_pending
        (code_error (if errors then "batch_publish_partial_failure" else "batch_publish_pending"))
    else if ltb 0 summary.scanning || ltb 0 summary.remediating || ltb 0 summary.delivering_result
    then set JobState.running none
    else if (summary.completed + summary.failed + summary.cancelled) == summary.total
    then (if summary.cancelled == summary.total
        then finish JobState.cancelled (code_error "job_cancelled")
        else if ltb 0 summary.failed
        then finish JobState.failed (failures_error summary.failed)
        else finish JobState.completed none)
    else if ltb 0 summary.queued || ltb 0 summary.scanned || ltb 0 summary.deliver_pending
    then set JobState.queued none
    else if summary.accepted == summary.total
    then set JobState.accepted none
    else keep

abbrev write_parent : Env → String → ParentUpdate → M (Unit {0})
write_parent env job_id keep = pure tt
write_parent env job_id (set state error) = do update_job_state env job_id state error none; pure tt
write_parent env job_id (finish state error) = do
  now ← utcnow env
  update_job_state env job_id state error (some now)
  pure tt

-- `any(item.error for item in pending_items)`
abbrev pub pending_errors : String → World → Bool
pending_errors job_id w =
    any (λ (item : JobItemRecord). has_fields (or_empty item.error))
      (filter (λ (item : JobItemRecord). is_item_state item.state ItemState.publish_pending)
        (list_job_items job_id none default_item_limit w))

-- `current_job.completed_at or datetime.now(…)`
abbrev or_now : Env → Option ℕ → M ℕ
or_now env none = utcnow env
or_now env (some t) = pure t

abbrev keep_cancelled : Env → String → JobRecord → M (Unit {0})
keep_cancelled env job_id job = do
  ended ← or_now env job.completed_at
  update_job_state env job_id JobState.cancelled job.error (some ended)
  pure tt

abbrev pub update_from_items : Env → String → M (Unit {0})
update_from_items env job_id = do
  update ← gets (λ w. parent_update (summarize_job_items job_id w) (pending_errors job_id w))
  write_parent env job_id update

unfoldable pub refresh_parent_job_state : Env → String → M (Unit {0})
refresh_parent_job_state env job_id = do
  current_job ← get_job job_id
  elim current_job [
    | none ↦ update_from_items env job_id
    | some job ↦
        if marked_cancelled job then keep_cancelled env job_id job else update_from_items env job_id
  ]
