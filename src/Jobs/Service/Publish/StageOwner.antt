-- ===== src/Jobs/Service/Publish/StageOwner.antt =====
-- After the hand-over of a message to a worker, the stages of its item are the worker's.
use dsx_connect.Prelude.{String, ◌≡◌, Bool, true, none, some, is_some, arith}
use dsx_connect.Prelude.Dict.{get}
use dsx_connect.Jobs.Models.{OutboxRecord, JobItemRecord}
use dsx_connect.Jobs.World.{World, Env}
use dsx_connect.Jobs.Repository.Items.{get_job_item}
use dsx_connect.Jobs.Repository.JobTable.{update_job_state}
use dsx_connect.Jobs.Repository.Outbox.{mark_outbox_published}
use dsx_connect.Jobs.Service.Parent.Frame.{refresh-JobsOnly}
use dsx_connect.Jobs.Service.Publish.{
  stage_of, item_of, is_low_persistence_scan_only, send, after_success,
}

-- A message that asks for a policy evaluation, a DIANNA analysis or a delivery, and names an item
-- that is stored once the bus has answered without an error: whatever the workers did to any item
-- while the bus was awaited stands, since the bookkeeping afterwards writes no item.
pub stage_owner :
    (env : Env) (claimed : OutboxRecord) (job_id i : String) (item : JobItemRecord) (u : Bool)
    (w v : World)
    → is_some (stage_of claimed.payload) ≡ true
    → item_of claimed.payload ≡ some i
    → env.publish claimed.payload w ≡ (none, v)
    → get v.job_items i ≡ some item
    → (send env claimed job_id claimed.payload u w).1.job_items ≡ v.job_items
unfolding send after_success mark_outbox_published get_job_item update_job_state
    is_low_persistence_scan_only
stage_owner env claimed job_id i item u w v staged named answered there =
    grind (arith, refresh-JobsOnly)
