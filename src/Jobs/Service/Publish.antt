-- ===== src/Jobs/Service/Publish.antt =====
-- dsx_connect_ng/dsx_connect_ng/jobs/service.py: `_publish_outbox_record`, the claim, the hand-over to the bus and
-- the bookkeeping after it.
pub mod Frame
pub mod Total
pub mod JobMessages
pub mod StageOwner
pub mod Outcomes
use dsx_connect.Prelude.{
  String, Bool, true, false, Option, none, some, if◌then◌else◌, ◌&&◌, ◌||◌, not, is_some, or_else,
}
use dsx_connect.Prelude.Value.{Fields, get_field, or_value, as_fields, is_true, is_text}
use dsx_connect.Jobs.Models.{
  ItemState, JobState, StageName, JobItemRecord, MessageType, MessageEnvelope, Envelope, message,
  domain, OutboxRecord, is_item_state, get_stage,
}
use dsx_connect.Jobs.World.{Env, M, ◌>>=◌, ◌>>◌, pure, or_500, when, ok}
use dsx_connect.Jobs.Repository.JobTable.{given_id, update_job_state}
use dsx_connect.Jobs.Repository.Items.{get_job_item, update_job_item_state, update_job_item_stage}
use dsx_connect.Jobs.Repository.Outbox.{
  claim_outbox_record, get_outbox_record, mark_outbox_published, mark_outbox_failed,
}
use dsx_connect.Jobs.Service.Lookup.{message_error}
use dsx_connect.Jobs.Service.Parent.{refresh_parent_job_state}

abbrev pub is_scan_request : Envelope → Bool
is_scan_request (message m) = elim m.message_type [
  | MessageType.scan_item_requested ↦ true
  | _ ↦ false
]
is_scan_request (domain d) = false

-- The stage that a message asks a worker to run, for the messages whose failure is kept there.
abbrev pub stage_of_message : MessageType → Option StageName
stage_of_message MessageType.policy_evaluation_requested = some StageName.policy_stage
stage_of_message MessageType.dianna_analysis_requested = some StageName.dianna_stage
stage_of_message MessageType.result_sink_emit_requested = some StageName.delivery_stage
stage_of_message MessageType.result_delivery_requested = some StageName.delivery_stage
stage_of_message _ = none

abbrev pub stage_of : Envelope → Option StageName
stage_of (message m) = stage_of_message m.message_type
stage_of (domain d) = none

-- `envelope.job_item_id`, where it is not empty.
abbrev pub item_of : Envelope → Option String
item_of (message m) = given_id (some m.job_item_id)
item_of (domain d) = given_id d.job_item_id

abbrev scan_options_of : MessageEnvelope → Fields
scan_options_of m = as_fields (get_field m.payload "scan_options")

-- The options are low-persistence ones: scan only, and not in item recovery mode.
abbrev low_persistence_options : Fields → Bool
low_persistence_options o =
    (is_true (get_field o "scanOnly") || is_true (get_field o "scan_only"))
    && not (
        is_text
          (or_value (get_field o "effectiveRecoveryMode") (get_field o "effective_recovery_mode"))
          "item")

abbrev low_persistence_payload : Envelope → Bool
low_persistence_payload (message m) = low_persistence_options (scan_options_of m)
low_persistence_payload (domain d) = false

unfoldable pub is_low_persistence_scan_only : Envelope → Bool
is_low_persistence_scan_only e = is_scan_request e && low_persistence_payload e

-- The item as it is looked up on the way; a low-persistence message looks nothing up.
abbrev pub item_for : Envelope → String → M (Option JobItemRecord)
item_for e job_item_id =
    if is_low_persistence_scan_only e then pure none else get_job_item job_item_id

abbrev pub is_terminal_item : ItemState → Bool
is_terminal_item ItemState.completed = true
is_terminal_item ItemState.failed = true
is_terminal_item ItemState.cancelled = true
is_terminal_item _ = false

-- Is the message dropped, since its item was cancelled, or has ended before its scan was asked for?
abbrev pub dropped : Envelope → Option JobItemRecord → Bool
dropped e none = false
dropped e (some item) =
    is_item_state item.state ItemState.cancelled || is_scan_request e && is_terminal_item item.state

abbrev pub skip_message : Env → OutboxRecord → M (Bool × OutboxRecord)
skip_message env claimed = do
  skipped ← mark_outbox_published env claimed.outbox_id
  refresh_parent_job_state env claimed.job_id
  row ← or_500 skipped "outbox_state_update_failed"
  pure (true, row)

-- The copy of a stage with the error of the publish, written with the item's other fields as read.
abbrev pub record_stage_error :
    Env → JobItemRecord → StageName → String → Option Fields → M (Unit {0})
record_stage_error env item stage_name job_item_id error = do
  update_job_item_stage env job_item_id stage_name
      (record (get_stage stage_name item) { error = error }) item.state item.error item.completed_at
  pure tt

abbrev pub publish_error_item :
    Env → Option StageName → Option JobItemRecord → String → Option Fields → M (Unit {0})
publish_error_item env (some stage_name) (some item) job_item_id error =
    record_stage_error env item stage_name job_item_id error
publish_error_item env (some stage_name) none job_item_id error = do
  update_job_item_state env job_item_id ItemState.publish_pending error none
  pure tt
publish_error_item env none found job_item_id error = do
  update_job_item_state env job_item_id ItemState.publish_pending error none
  pure tt

-- `if envelope.job_item_id and update_item_stage`
abbrev pub tracked_item : Envelope → Bool → Option String
tracked_item e update_item_stage = if update_item_stage then item_of e else none

-- What a failed publish writes: to the item that is tracked, or else to the job.
abbrev pub failed_target :
    Env → OutboxRecord → Option String → Envelope → Option Fields → M (Unit {0})
failed_target env claimed (some job_item_id) e error = do
  current_item ← get_job_item job_item_id
  publish_error_item env (stage_of e) current_item job_item_id error
  refresh_parent_job_state env claimed.job_id
failed_target env claimed none e error = do
  update_job_state env claimed.job_id JobState.publish_pending error none
  pure tt

-- The bookkeeping of the `except` branch.
unfoldable pub after_failure :
    Env → OutboxRecord → Envelope → Bool → String → M (Bool × OutboxRecord)
after_failure env claimed e update_item_stage text = do
  let error = message_error "job_publish_failed" text
  failed ← mark_outbox_failed env claimed.outbox_id error
  failed_target env claimed (tracked_item e update_item_stage) e error
  row ← or_500 failed "outbox_state_update_failed"
  pure (false, row)

-- What a published message changes of its item. A worker owns the stage of a staged message.
abbrev pub published_item : Env → Envelope → String → Option JobItemRecord → M Bool
published_item env e job_item_id current_item =
    if is_some (stage_of e) && is_some current_item
    then pure true
    else if is_scan_request e
    then pure false
    else do update_job_item_state env job_item_id ItemState.queued none none; pure true

-- What a message that went out writes: to the item that is tracked, or else to the job.
abbrev pub published_target : Env → String → Option String → Envelope → M (Unit {0})
published_target env job_id (some job_item_id) e = do
  current_item ← item_for e job_item_id
  refresh_parent ← published_item env e job_item_id current_item
  when refresh_parent (refresh_parent_job_state env job_id)
published_target env job_id none e = do
  update_job_state env job_id JobState.queued none none
  pure tt

-- The bookkeeping after `bus.publish` has returned; `job_id` is that of the row as it was passed in.
unfoldable pub after_success :
    Env → OutboxRecord → String → Envelope → Bool → M (Bool × OutboxRecord)
after_success env claimed job_id e update_item_stage = do
  published ← mark_outbox_published env claimed.outbox_id
  published_target env job_id (tracked_item e update_item_stage) e
  row ← or_500 published "outbox_state_update_failed"
  pure (true, row)

-- `await self.bus.publish(envelope)`: the message of what it raised.
abbrev pub bus_publish : Env → Envelope → M (Option String)
bus_publish env e w = let (raised, w') = env.publish e w in (ok raised, w')

-- An item whose scan is asked for is queued before the message goes out.
abbrev pub queue_scan_item : Env → Envelope → Option JobItemRecord → String → M (Unit {0})
queue_scan_item env e current_item job_item_id =
    when (is_some current_item && is_scan_request e)
      (do update_job_item_state env job_item_id ItemState.queued none none; pure tt)

-- The branch that the answer of the bus leads to.
abbrev pub after_publish :
    Env → OutboxRecord → String → Envelope → Bool → Option String → M (Bool × OutboxRecord)
after_publish env claimed job_id e update_item_stage (some text) =
    after_failure env claimed e update_item_stage text
after_publish env claimed job_id e update_item_stage none =
    after_success env claimed job_id e update_item_stage

unfoldable pub send : Env → OutboxRecord → String → Envelope → Bool → M (Bool × OutboxRecord)
send env claimed job_id e update_item_stage = do
  failure ← bus_publish env e
  after_publish env claimed job_id e update_item_stage failure

-- The message of a claimed row, with the item that it names.
abbrev pub publish_for :
    Env → OutboxRecord → String → Bool → Option String → M (Bool × OutboxRecord)
publish_for env claimed job_id update_item_stage none =
    send env claimed job_id claimed.payload update_item_stage
publish_for env claimed job_id update_item_stage (some job_item_id) = do
  let e : Envelope = claimed.payload
  current_item ← item_for e job_item_id
  if dropped e current_item then skip_message env claimed else do
    queue_scan_item env e current_item job_item_id
    send env claimed job_id e update_item_stage

-- The part of the method after the claim.
unfoldable pub publish_claimed : Env → OutboxRecord → String → Bool → M (Bool × OutboxRecord)
publish_claimed env claimed job_id update_item_stage =
    publish_for env claimed job_id update_item_stage (item_of claimed.payload)

-- A row that was already claimed, or is gone, counts as published.
abbrev pub publish_if_claimed :
    Env → OutboxRecord → Bool → Option OutboxRecord → M (Bool × OutboxRecord)
publish_if_claimed env outbox update_item_stage none = do
  existing ← get_outbox_record outbox.outbox_id
  pure (true, or_else existing outbox)
publish_if_claimed env outbox update_item_stage (some claimed) =
    publish_claimed env claimed outbox.job_id update_item_stage

unfoldable pub publish_outbox_record : Env → OutboxRecord → Bool → M (Bool × OutboxRecord)
publish_outbox_record env outbox update_item_stage = do
  claimed_outbox ← claim_outbox_record env outbox.outbox_id
  publish_if_claimed env outbox update_item_stage claimed_outbox
