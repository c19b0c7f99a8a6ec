-- ===== src/Jobs/Service/Parent/Frame.antt =====
-- What `_refresh_parent_job_state` leaves alone, and the cancelled job that it keeps cancelled.
use dsx_connect.Prelude.{ℕ, String, ◌≡◌, true, false, Option, none, some, arith, str_eq, eq_refl}
use dsx_connect.Prelude.Value.{Fields}
use dsx_connect.Prelude.Dict.{get, get-put}
use dsx_connect.Jobs.Models.{JobState, JobRecord}
use dsx_connect.Jobs.World.{World, Env}
use dsx_connect.Jobs.Repository.JobTable.{get_job, update_job_state}
use dsx_connect.Jobs.Repository.Summary.{summarize_job_items}
use dsx_connect.Jobs.Service.Lookup.{marked_cancelled}
use dsx_connect.Jobs.Service.Parent.{
  ParentUpdate, keep, set, finish, refresh_parent_job_state, parent_update, pending_errors,
}

-- A call touched no more than the rows of the jobs.
pub record JobsOnly (w w' : World) : Type 0 where
  pub job_items : w'.job_items ≡ w.job_items
  pub outbox : w'.outbox ≡ w.outbox
  pub scan_leases : w'.scan_leases ≡ w.scan_leases
  pub published : w'.published ≡ w.published
  pub uuids : w'.uuids ≡ w.uuids

pub update_job_state-JobsOnly :
    (env : Env) (job_id : String) (state : JobState) (error : Option Fields) (t : Option ℕ)
    (w : World)
    → JobsOnly w (update_job_state env job_id state error t w).1
unfolding update_job_state
update_job_state-JobsOnly env job_id state error t w = ground arith

pub refresh-JobsOnly :
    (env : Env) (job_id : String) (w : World) → JobsOnly w (refresh_parent_job_state env job_id w).1
unfolding refresh_parent_job_state get_job update_job_state
refresh-JobsOnly env job_id w = ground arith

pub get-update_job_state_ne :
    (env : Env) (job_id j : String) (state : JobState) (error : Option Fields) (t : Option ℕ)
    (w : World)
    → str_eq job_id j ≡ false
    → get (update_job_state env job_id state error t w).1.jobs j ≡ get w.jobs j
unfolding update_job_state
get-update_job_state_ne env job_id j state error t w h = grind (arith, get-put)

-- The refresh of one job leaves the row of every other job as it was.
pub refresh-other :
    (env : Env) (job_id j : String) (w : World)
    → str_eq job_id j ≡ false
    → get (refresh_parent_job_state env job_id w).1.jobs j ≡ get w.jobs j
unfolding refresh_parent_job_state get_job update_job_state
refresh-other env job_id j w h = grind (arith, get-put)

-- The state and the error of a stored job.
abbrev pub status : Option JobRecord → Option (JobState × Option Fields)
status none = none
status (some job) = some (job.state, job.error)

-- A refresh of a stored job that counts as cancelled leaves it in the state cancelled, with its error.
pub refresh_cancelled :
    (env : Env) (job_id : String) (job : JobRecord) (w : World)
    → get w.jobs job_id ≡ some job
    → marked_cancelled job ≡ true
    → status (get (refresh_parent_job_state env job_id w).1.jobs job_id)
      ≡ some (JobState.cancelled, job.error)
unfolding refresh_parent_job_state get_job update_job_state
refresh_cancelled env job_id job w found marked = grind (arith, get-put, eq_refl)

-- The status that the ladder's answer leaves.
abbrev pub applied : ParentUpdate → JobRecord → Option (JobState × Option Fields)
applied keep job = some (job.state, job.error)
applied (set state error) job = some (state, error)
applied (finish state error) job = some (state, error)

-- A refresh of a stored job that does not count as cancelled leaves it with the state and the error
-- that the ladder decides from the summary of its items, or as it was where the ladder keeps it.
pub refresh_by_ladder :
    (env : Env) (job_id : String) (job : JobRecord) (w : World)
    → get w.jobs job_id ≡ some job
    → marked_cancelled job ≡ false
    → status (get (refresh_parent_job_state env job_id w).1.jobs job_id)
      ≡ applied (parent_update (summarize_job_items job_id w) (pending_errors job_id w)) job
unfolding refresh_parent_job_state get_job update_job_state
refresh_by_ladder env job_id job w found unmarked = grind (arith, get-put, eq_refl)
