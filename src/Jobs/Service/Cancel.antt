-- ===== src/Jobs/Service/Cancel.antt =====
-- dsx_connect_ng/dsx_connect_ng/jobs/service.py: `cancel_job`.
pub mod Effect
use dsx_connect.Prelude.{String, Option, none, some, List, [], ◌∷◌, arith}
use dsx_connect.Jobs.Models.{JobState, ItemState, BatchJobRecord}
use dsx_connect.Jobs.World.{Env, M, ◌>>=◌, ◌>>◌, utcnow}
use dsx_connect.Jobs.Repository.JobTable.{update_job_state}
use dsx_connect.Jobs.Repository.Items.{cancel_job_items}
use dsx_connect.Jobs.Service.Lookup.{message_error, get_job_or_404, get_batch_job_or_404}

-- `cancellable_states`
abbrev pub cancellable_states : List ItemState
cancellable_states =
    ItemState.accepted ∷ ItemState.publish_pending ∷ ItemState.queued ∷ ItemState.scanning
    ∷ ItemState.scanned ∷ ItemState.remediating ∷ ItemState.deliver_pending
    ∷ ItemState.delivering_result ∷ []

unfoldable pub cancel_job : Env → String → M BatchJobRecord
cancel_job env job_id = do
  job ← get_job_or_404 job_id
  cancelled_at ← utcnow env
  let error = message_error "job_cancelled" "Job was cancelled by operator request."
  update_job_state env job.job_id JobState.cancelled error (some cancelled_at)
  cancel_job_items env job.job_id cancellable_states error (some cancelled_at)
  get_batch_job_or_404 job.job_id
