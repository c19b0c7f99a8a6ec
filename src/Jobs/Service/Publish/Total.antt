-- ===== src/Jobs/Service/Publish/Total.antt =====
-- `_publish_outbox_record` returns, where the bus leaves the outbox as it is.
use dsx_connect.Prelude.{
  ℕ, String, ◌≡◌, refl, Bool, true, false, Option, none, some, arith, if◌then◌else◌,
}
use dsx_connect.Prelude.Value.{Fields}
use dsx_connect.Prelude.Dict.{get}
use dsx_connect.Jobs.Models.{
  JobState, ItemState, StageName, StageRecord, OutboxRecord, JobItemRecord, Envelope,
}
use dsx_connect.Jobs.World.{World, Env, ok, is_ok, ◌>>◌}
use dsx_connect.Jobs.World.Total.{IsTotal, total_rules, found-is_ok, continue-is_ok}
use dsx_connect.Jobs.Repository.JobTable.{get_job, update_job_state}
use dsx_connect.Jobs.Repository.Items.{get_job_item, update_job_item_state, update_job_item_stage}
use dsx_connect.Jobs.Repository.Outbox.{mark_outbox_published, mark_outbox_failed}
use dsx_connect.Jobs.Service.Parent.{refresh_parent_job_state}
use dsx_connect.Jobs.Service.Publish.{
  item_for, publish_error_item, published_item, failed_target, published_target, tracked_item,
  skip_message, queue_scan_item, after_failure, after_success, after_publish, send, publish_for,
  dropped,
}

module _ (env : Env) where
  pub job_state-IsTotal :
      (j : String) (state : JobState) (error : Option Fields) (t : Option ℕ)
      → IsTotal (update_job_state env j state error t)
  unfolding update_job_state
  job_state-IsTotal j state error t = record { at = λ w. ground arith }

  pub refresh-IsTotal : (j : String) → IsTotal (refresh_parent_job_state env j)
  unfolding refresh_parent_job_state get_job update_job_state
  refresh-IsTotal j = record { at = λ w. ground arith }

  item_state-IsTotal :
      (i : String) (state : ItemState) (error : Option Fields) (t : Option ℕ)
      → IsTotal (update_job_item_state env i state error t)
  unfolding update_job_item_state
  item_state-IsTotal i state error t = record { at = λ w. ground arith }

  item_stage-IsTotal :
      (i : String) (name : StageName) (r : StageRecord) (state : ItemState) (error : Option Fields)
      (t : Option ℕ)
      → IsTotal (update_job_item_stage env i name r state error t)
  unfolding update_job_item_stage
  item_stage-IsTotal i name r state error t = record { at = λ w. ground arith }

  get_item-IsTotal : (i : String) → IsTotal (get_job_item i)
  unfolding get_job_item
  get_item-IsTotal i = search total_rules

  error_item-IsTotal :
      (name : Option StageName) (item : Option JobItemRecord) (i : String) (error : Option Fields)
      → IsTotal (publish_error_item env name item i error)
  error_item-IsTotal none item i error = search (total_rules, item_state-IsTotal)
  error_item-IsTotal (some n) none i error = search (total_rules, item_state-IsTotal)
  error_item-IsTotal (some n) (some item) i error = search (total_rules, item_stage-IsTotal)

  item_for-IsTotal : (e : Envelope) (i : String) → IsTotal (item_for e i)
  item_for-IsTotal e i = search (total_rules, get_item-IsTotal)

  went_out-IsTotal :
      (e : Envelope) (i : String) (item : Option JobItemRecord)
      → IsTotal (published_item env e i item)
  went_out-IsTotal e i item = search (total_rules, item_state-IsTotal)

  failed-IsTotal :
      (claimed : OutboxRecord) (o : Option String) (e : Envelope) (error : Option Fields)
      → IsTotal (failed_target env claimed o e error)
  failed-IsTotal claimed none e error = search (total_rules, job_state-IsTotal)
  failed-IsTotal claimed (some i) e error =
      search (total_rules, get_item-IsTotal, error_item-IsTotal, refresh-IsTotal)

  published-IsTotal :
      (j : String) (o : Option String) (e : Envelope) → IsTotal (published_target env j o e)
  published-IsTotal j none e = search (total_rules, job_state-IsTotal)
  published-IsTotal j (some i) e =
      search (total_rules, item_for-IsTotal, went_out-IsTotal, refresh-IsTotal)

  mark_published_row :
      (id : String) (row : OutboxRecord) (w : World)
      → get w.outbox id ≡ some row
      → (r : OutboxRecord) × ((mark_outbox_published env id w).0 ≡ ok (some r))
  unfolding mark_outbox_published
  mark_published_row id row w there = rw there (_, refl)

  mark_failed_row :
      (id : String) (error : Option Fields) (row : OutboxRecord) (w : World)
      → get w.outbox id ≡ some row
      → (r : OutboxRecord) × ((mark_outbox_failed env id error w).0 ≡ ok (some r))
  unfolding mark_outbox_failed
  mark_failed_row id error row w there = rw there (_, refl)

module _ (env : Env) (claimed : OutboxRecord) (u : Bool)
    (quiet : (e : Envelope) (v : World) → (env.publish e v).1.outbox ≡ v.outbox) where
  skip-is_ok :
      (w : World) (row : OutboxRecord)
      → get w.outbox claimed.outbox_id ≡ some row
      → is_ok (skip_message env claimed w).0 ≡ true
  skip-is_ok w row there =
      let m = mark_published_row env claimed.outbox_id row w there in
      found-is_ok (mark_outbox_published env claimed.outbox_id)
        (refresh_parent_job_state env claimed.job_id) (λ r. (true, r)) _ w m.0 m.1
        (refresh-IsTotal env claimed.job_id)

  answered-is_ok :
      (j : String) (e : Envelope) (a : Option String) (w : World) (row : OutboxRecord)
      → get w.outbox claimed.outbox_id ≡ some row
      → is_ok (after_publish env claimed j e u a w).0 ≡ true
  unfolding after_success after_failure
  answered-is_ok j e none w row there =
      let m = mark_published_row env claimed.outbox_id row w there in
      found-is_ok (mark_outbox_published env claimed.outbox_id)
        (published_target env j (tracked_item e u) e) (λ r. (true, r)) _ w m.0 m.1
        (published-IsTotal env j (tracked_item e u) e)
  answered-is_ok j e (some text) w row there =
      let m = mark_failed_row env claimed.outbox_id _ row w there in
      found-is_ok (mark_outbox_failed env claimed.outbox_id _)
        (failed_target env claimed (tracked_item e u) e _) (λ r. (false, r)) _ w m.0 m.1
        (failed-IsTotal env claimed (tracked_item e u) e _)

  send-is_ok :
      (j : String) (e : Envelope) (w : World) (row : OutboxRecord)
      → get w.outbox claimed.outbox_id ≡ some row
      → is_ok (send env claimed j e u w).0 ≡ true
  unfolding send
  send-is_ok j e w row there =
      answered-is_ok j e (env.publish e w).0 (env.publish e w).1 row (rw (quiet e w) there)

  queue-IsTotal :
      (e : Envelope) (item : Option JobItemRecord) (i : String)
      → IsTotal (queue_scan_item env e item i)
  queue-IsTotal e item i = search (total_rules, item_state-IsTotal env)

  queue_outbox :
      (e : Envelope) (item : Option JobItemRecord) (i : String) (w : World)
      → (queue_scan_item env e item i w).1.outbox ≡ w.outbox
  unfolding update_job_item_state
  queue_outbox e item i w = ground arith

  -- The two branches for a message that names an item.
  named-is_ok :
      (j : String) (i : String) (item : Option JobItemRecord) (drop : Bool) (w : World)
      (row : OutboxRecord)
      → get w.outbox claimed.outbox_id ≡ some row
      → is_ok
          ((if drop then skip_message env claimed else do
            queue_scan_item env claimed.payload item i
            send env claimed j claimed.payload u)
            w).0
        ≡ true
  named-is_ok j i item true w row there = skip-is_ok w row there
  named-is_ok j i item false w row there =
      continue-is_ok (queue_scan_item env claimed.payload item i w).0 _
        (queue_scan_item env claimed.payload item i w).1
        ((queue-IsTotal claimed.payload item i).at w)
        (λ a e.
          send-is_ok j claimed.payload (queue_scan_item env claimed.payload item i w).1 row
            (rw (queue_outbox claimed.payload item i w) there))

  item_for_reads : (e : Envelope) (i : String) (w : World) → (item_for e i w).1 ≡ w
  unfolding get_job_item
  item_for_reads e i w = ground arith

  pub publish_for-is_ok :
      (j : String) (o : Option String) (w : World) (row : OutboxRecord)
      → get w.outbox claimed.outbox_id ≡ some row
      → is_ok (publish_for env claimed j u o w).0 ≡ true
  publish_for-is_ok j none w row there = send-is_ok j claimed.payload w row there
  publish_for-is_ok j (some i) w row there =
      continue-is_ok (item_for claimed.payload i w).0 _ (item_for claimed.payload i w).1
        ((item_for-IsTotal env claimed.payload i).at w)
        (λ item e.
          named-is_ok j i item (dropped claimed.payload item) (item_for claimed.payload i w).1 row
            (rw (item_for_reads claimed.payload i w) there))
