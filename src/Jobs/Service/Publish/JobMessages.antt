-- ===== src/Jobs/Service/Publish/JobMessages.antt =====
-- The messages of whole jobs, which name no item.
use dsx_connect.Prelude.{◌≡◌, Bool, none, some, arith, eq_refl}
use dsx_connect.Prelude.Dict.{get, get-put}
use dsx_connect.Jobs.Models.{PublishState, JobState, OutboxRecord, JobRecord}
use dsx_connect.Jobs.World.{World, Env}
use dsx_connect.Jobs.Repository.Outbox.{claim_outbox_record, mark_outbox_published}
use dsx_connect.Jobs.Repository.JobTable.{update_job_state}
use dsx_connect.Jobs.Service.Parent.Frame.{status}
use dsx_connect.Jobs.Service.Publish.{
  item_of, publish_outbox_record, publish_claimed, send, after_success,
}
use dsx_connect.Jobs.Service.Publish.Outcomes.{BusAnswers}

-- The publish of a pending row that names no item leaves its job queued and without an error, in
-- whatever state the job was. In particular, a job that was cancelled while its message was
-- pending no longer counts as cancelled. Of the bus it is assumed that it answers without an
-- error and leaves the outbox and the jobs as they are.
pub job_message_queues :
    (env : Env) (outbox row : OutboxRecord) (job : JobRecord) (u : Bool) (w : World)
    → get w.outbox outbox.outbox_id ≡ some row
    → row.publish_state ≡ PublishState.pending
    → item_of row.payload ≡ none
    → get w.jobs outbox.job_id ≡ some job
    → BusAnswers env row.payload none
    → ((v : World) → (env.publish row.payload v).1.jobs ≡ v.jobs)
    → status (get (publish_outbox_record env outbox u w).1.jobs outbox.job_id)
      ≡ some (JobState.queued, none)
unfolding publish_outbox_record claim_outbox_record publish_claimed send after_success
    mark_outbox_published update_job_state
job_message_queues env outbox row job u w found pend unnamed job_found bus keeps =
    grind (arith, get-put, eq_refl, bus.answers, bus.keeps_outbox, keeps)
