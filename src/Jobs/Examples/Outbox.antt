-- ===== src/Jobs/Examples/Outbox.antt =====
-- The pending messages of the job: claimed, sent, refused, selected, and the job submitted again.
use dsx_connect.Prelude.{
  arith, eq_iff, ◌≡◌, refl, true, none, some, [], ◌∷◌, ◌+◌, ◌≤◌, ◌-◌, min, max, length, count,
}
use dsx_connect.Prelude.Value.{get_field, no_fields}
use dsx_connect.Prelude.Dict.{get, values}
use dsx_connect.Jobs.Models.{JobState, PublishState, ItemState}
use dsx_connect.Jobs.World.{World, ok, is_ok}
use dsx_connect.Jobs.Repository.JobTable.{
  get_job_by_idempotency_key, create_job, update_job_state, get_job, list_jobs,
}
use dsx_connect.Jobs.Repository.Outbox.{
  create_outbox_record, claim_outbox_record, mark_outbox_published, has_publish_state,
}
use dsx_connect.Jobs.Repository.Outbox.Claims.{claim_all, claim_exclusive, delivery}
use dsx_connect.Jobs.Repository.Fair.{list_outbox_records_fair}
use dsx_connect.Jobs.Repository.Fair.Length.{length-list_outbox_records_fair}
use dsx_connect.Jobs.Service.Parent.Frame.{status}
use dsx_connect.Jobs.Service.Publish.{
  publish_outbox_record, publish_claimed, send, after_success, is_low_persistence_scan_only,
}
use dsx_connect.Jobs.Service.Publish.Outcomes.{answered, publish_answered, held_back}
use dsx_connect.Jobs.Service.Publish.JobMessages.{job_message_queues}
use dsx_connect.Jobs.Service.Submit.{
  JobSubmitRequest, submit_job, submit_new, validate_control_plane_references,
}
use dsx_connect.Jobs.Service.Submit.Twice.{submit_twice}
use dsx_connect.Jobs.Service.Flush.Total.{IsKeyed, flush_capacity}
use dsx_connect.Jobs.Service.Flush.{
  OutboxFlushResult, active_scan_item_count, sum_active, active_items_of, is_scan_only_batch_job,
  flush_outbox,
}
use dsx_connect.Jobs.Repository.Items.{list_job_items}
use dsx_connect.Jobs.Repository.Summary.{summarize_job_items, add_rows, add_state}
use dsx_connect.Prelude.Sort.{sort_by}
use dsx_connect.Jobs.Examples.Store.{env, broken, job, item, row, job_row, store}

claim_exclusive_example :
    claim_outbox_record broken "o"
      (claim_all ((env, "p") ∷ []) (claim_outbox_record env "o" store).1)
    ≡ (ok none, claim_all ((env, "p") ∷ []) (claim_outbox_record env "o" store).1)
claim_exclusive_example = claim_exclusive env broken "o" ((env, "p") ∷ []) store

publish_answered_example :
    delivery (get (publish_outbox_record broken row true store).1.outbox "o")
    ≡ answered (some "no route") row
unfolding get held_back is_low_persistence_scan_only get_field
publish_answered_example =
    publish_answered broken row row true store refl refl refl (some "no route") refl
      (record { answers = λ v. refl; keeps_outbox = λ v. refl })

-- The store in which the item was cancelled before its scan was asked for.
abbrev cancelled_store : World
cancelled_store = record store {
  job_items = ("i", record item { state = ItemState.cancelled }) ∷ [];
}

-- The store in which the job was cancelled while its own message was pending.
abbrev cancelled_job_store : World
cancelled_job_store = record store { jobs = ("j", record job { state = JobState.cancelled }) ∷ [] }

job_message_queues_example :
    status (get (publish_outbox_record env job_row true cancelled_job_store).1.jobs "j")
    ≡ some (JobState.queued, none)
unfolding get
job_message_queues_example =
    job_message_queues env job_row job_row (record job { state = JobState.cancelled }) true
      cancelled_job_store refl refl refl refl
      (record { answers = λ v. refl; keeps_outbox = λ v. refl }) (λ v. refl)

length-list_outbox_records_fair_example :
    length (list_outbox_records_fair (some PublishState.pending) 1 store)
    ≡ min 1 (count (has_publish_state (some PublishState.pending)) (values store.outbox))
length-list_outbox_records_fair_example =
    length-list_outbox_records_fair (some PublishState.pending) 1 store

-- The store with the scan request alone.
abbrev one_row : World
one_row = record store { outbox = ("o", row) ∷ [] }

one_row-IsKeyed : IsKeyed one_row
unfolding get
one_row-IsKeyed id row' there = ground (arith, eq_iff "o" id)

flush_capacity_example :
    (r : OutboxFlushResult) × ((flush_outbox env 10 (some 5) one_row).0 ≡ ok r)
    × (r.active_scan_items ≡ some 1)
    × (r.publish_capacity ≡ some (5 - 1))
    × (r.attempted
        ≡ min 10 (
            min
              (5 - 1)
              (count (has_publish_state (some PublishState.pending)) (values one_row.outbox))))
    × (1 + r.attempted ≤ max 1 5)
    × (r.published + r.failed ≤ r.attempted)
unfolding get get_field active_scan_item_count list_jobs sum_active active_items_of
    is_scan_only_batch_job list_job_items summarize_job_items add_rows add_state values sort_by
flush_capacity_example = flush_capacity env 10 5 1 one_row (λ e v. refl) one_row-IsKeyed refl

abbrev request : JobSubmitRequest
request = record {
  job_id = none;
  job_type = "scan.batch";
  integration_id = none;
  scope_id = none;
  object_identity = none;
  idempotency_key = some "again";
  payload = no_fields;
}

submit_twice_example :
    (is_ok (submit_job env request (submit_job env request store).1).0 ≡ true)
    × ((submit_job env request (submit_job env request store).1).1
        ≡ (submit_job env request store).1)
unfolding submit_job get_job_by_idempotency_key submit_new validate_control_plane_references
    create_job create_outbox_record publish_outbox_record claim_outbox_record publish_claimed send
    after_success mark_outbox_published update_job_state get_job
submit_twice_example =
    submit_twice env "again" (λ e. record { at = λ w h. h }) request request store refl refl refl
