-- ===== src/Jobs/Service/Cancel/Effect.antt =====
-- `cancel_job`: what becomes of the job, of its items, and of the messages that are still to go out.
use dsx_connect.Prelude.{
  ℕ, suc, String, ◌≡◌, refl, Bool, true, false, Option, none, some, arith, eq_refl, eq_iff, ap, ◌∙◌,
  ◌+◌, ◌&&◌, not, str_eq, if◌then◌else◌,
}
use dsx_connect.Prelude.Value.{Fields, field, str, no_fields}
use dsx_connect.Prelude.Dict.{get, get-put, IsDict}
use dsx_connect.Jobs.Models.{
  JobState, ItemState, JobRecord, JobItemRecord, OutboxRecord, PublishState, Envelope,
}
use dsx_connect.Jobs.World.{World, Env, ok, is_ok}
use dsx_connect.Jobs.Repository.JobTable.{get_job, update_job_state}
use dsx_connect.Jobs.Repository.Outbox.Claims.{delivery}
use dsx_connect.Jobs.Repository.Items.{cancel_job_items, cancelled_row}
use dsx_connect.Jobs.Repository.Items.Cancelling.{
  unstamped, cancel_row, cancel_job_items_lem, cancel_job_items_frame,
}
use dsx_connect.Jobs.Service.Lookup.{get_job_or_404, get_batch_job_or_404, is_job_cancelled}
use dsx_connect.Jobs.Service.Parent.Frame.{status}
use dsx_connect.Jobs.Service.Publish.{
  is_terminal_item, item_of, dropped, is_low_persistence_scan_only, publish_outbox_record,
}
use dsx_connect.Jobs.Service.Publish.Outcomes.{publish_dropped}
use dsx_connect.Jobs.Service.Cancel.{cancel_job, cancellable_states}

-- `{"code": "job_cancelled", "message": …}`
abbrev pub operator_error : Option Fields
operator_error = some (
    field "code" (str "job_cancelled")
      (field "message" (str "Job was cancelled by operator request.") no_fields))

-- The state of an item.
abbrev pub item_state : Option JobItemRecord → Option ItemState
item_state none = none
item_state (some row) = some row.state

-- Items in these states are left alone.
abbrev pub has_ended : ItemState → Bool
has_ended ItemState.completed = true
has_ended ItemState.failed = true
has_ended ItemState.cancelled = true
has_ended _ = false

-- What an operator who cancels a job at `t` expects of an item.
abbrev pub stopped : String → ℕ → Option JobItemRecord → Option JobItemRecord
stopped job_id t none = none
stopped job_id t (some item) =
    if str_eq item.job_id job_id && not (has_ended item.state)
    then some
        (record item { state = ItemState.cancelled; error = operator_error; completed_at = some t })
    else some item

cancel_row-stopped :
    (env : Env) (job_id : String) (t : ℕ) (item : Option JobItemRecord)
    → cancel_row env job_id cancellable_states operator_error (some t) item ≡ stopped job_id t item
cancel_row-stopped env job_id t none = refl
cancel_row-stopped env job_id t (some item) = ground arith

get_batch_reads : (id : String) (v : World) → (get_batch_job_or_404 id v).1 ≡ v
unfolding get_batch_job_or_404 get_job_or_404 get_job
get_batch_reads id v = ground arith

update_job_state_ok :
    (env : Env) (id : String) (state : JobState) (error : Option Fields) (t : Option ℕ) (v : World)
    → is_ok (update_job_state env id state error t v).0 ≡ true
unfolding update_job_state
update_job_state_ok env id state error t v = ground arith

cancel_row-is_terminal_item :
    (env : Env) (job_id : String) (error : Option Fields) (t : Option ℕ)
    (before : Option JobItemRecord) (row : JobItemRecord)
    → unstamped (some row) ≡ unstamped (cancel_row env job_id cancellable_states error t before)
    → row.job_id ≡ job_id
    → is_terminal_item row.state ≡ true
cancel_row-is_terminal_item env job_id error t none row e of = absurd (ground arith)
cancel_row-is_terminal_item env job_id error t (some r) row e of =
    grind (arith, eq_iff r.job_id job_id)

going_cancelled :
    (env : Env) (job_id : String) (error : Option Fields) (t : Option ℕ) (item : JobItemRecord)
    → item.job_id ≡ job_id
    → is_terminal_item item.state ≡ false
    → cancel_row env job_id cancellable_states error t (some item)
      ≡ some (cancelled_row item error item.updated_at t)
going_cancelled env job_id error t item of going = grind (arith, eq_iff item.job_id job_id)

cancelled_state :
    (after : Option JobItemRecord) (item : JobItemRecord) (error : Option Fields) (t : Option ℕ)
    → unstamped after ≡ unstamped (some (cancelled_row item error item.updated_at t))
    → item_state after ≡ some ItemState.cancelled
cancelled_state none item error t h = absurd (ground arith)
cancelled_state (some row) item error t h = ground arith

cancelled_dropped :
    (e : Envelope) (row : JobItemRecord)
    → row.state ≡ ItemState.cancelled
    → dropped e (some row) ≡ true
cancelled_dropped e row h = ground arith

publish_stopped :
    (env : Env) (outbox row : OutboxRecord) (u : Bool) (i : String) (later : World)
    (found : Option JobItemRecord)
    → get later.outbox outbox.outbox_id ≡ some row
    → row.outbox_id ≡ outbox.outbox_id
    → row.publish_state ≡ PublishState.pending
    → item_of row.payload ≡ some i
    → is_low_persistence_scan_only row.payload ≡ false
    → get later.job_items i ≡ found
    → item_state found ≡ some ItemState.cancelled
    → ((publish_outbox_record env outbox u later).1.published ≡ later.published)
      × (delivery (get (publish_outbox_record env outbox u later).1.outbox outbox.outbox_id)
          ≡ some (PublishState.published, row.publish_attempts + 1, none))
publish_stopped env outbox row u i later none there ids pend of high item_there state =
    absurd (ground arith)
publish_stopped env outbox row u i later (some item) there ids pend of high item_there state =
    publish_dropped env outbox row u later there ids pend i item of high item_there
      (cancelled_dropped row.payload item (ground arith))

module _ (env : Env) (job_id : String) (job : JobRecord) (w : World)
    (found : get w.jobs job_id ≡ some job) (same_id : job.job_id ≡ job_id)
    (keyed : IsDict w.job_items) where
  abbrev pub cancelled_world : World
  cancelled_world = (cancel_job env job_id w).1

  -- The world in which the items are cancelled.
  abbrev marked_world : World
  marked_world =
      (update_job_state env job_id JobState.cancelled operator_error (some (env.clock w.ticks))
        (record w { ticks = suc w.ticks })).1

  abbrev items_world : World
  items_world =
      (cancel_job_items env job_id cancellable_states operator_error (some (env.clock w.ticks))
        marked_world).1

  marked_items : marked_world.job_items ≡ w.job_items
  unfolding update_job_state
  marked_items = ground arith

  keyed_marked : IsDict marked_world.job_items
  keyed_marked = grind (arith, marked_items)

  cancelled-items_world : cancelled_world ≡ items_world
  unfolding cancel_job get_job_or_404 get_job
  cancelled-items_world = grind (
    arith,
    get_batch_reads job_id items_world,
    update_job_state_ok env job_id JobState.cancelled operator_error (some (env.clock w.ticks))
        (record w { ticks = suc w.ticks }),
    (cancel_job_items_lem env job_id cancellable_states operator_error (some (env.clock w.ticks))
        marked_world keyed_marked).1,
  )

  cancel_job-status :
      status (get cancelled_world.jobs job_id) ≡ some (JobState.cancelled, operator_error)
  unfolding update_job_state
  cancel_job-status = grind (arith, get-put, eq_refl, cancelled-items_world, cancel_job_items_frame)

  cancel_job-items :
      (j : String)
      → unstamped (get cancelled_world.job_items j)
        ≡ unstamped (
            cancel_row env job_id cancellable_states operator_error
              (some (env.clock w.ticks))
              (get w.job_items j))
  cancel_job-items j = grind (
    arith,
    cancelled-items_world,
    marked_items,
    (cancel_job_items_lem env job_id cancellable_states operator_error (some (env.clock w.ticks))
          marked_world keyed_marked).0
        j,
  )

  cancel_job-outbox :
      (cancelled_world.outbox ≡ w.outbox) × (cancelled_world.published ≡ w.published)
  unfolding update_job_state
  cancel_job-outbox = grind (arith, cancelled-items_world, cancel_job_items_frame)

  -- After `cancel_job` on a stored job, with the items under distinct identifiers, every stored item
  -- of the job is completed, failed or cancelled.
  pub cancel_job-IsOver :
      (j : String) (row : JobItemRecord)
      → get cancelled_world.job_items j ≡ some row
      → row.job_id ≡ job_id
      → is_terminal_item row.state ≡ true
  cancel_job-IsOver j row there of =
      cancel_row-is_terminal_item env job_id operator_error (some (env.clock w.ticks))
        (get w.job_items j) row (grind (arith, cancel_job-items j)) of

  pub cancel_job-is_job_cancelled : (is_job_cancelled job_id cancelled_world).0 ≡ ok true
  unfolding is_job_cancelled get_job
  cancel_job-is_job_cancelled = grind (arith, cancel_job-status)

  after_cancel :
      (i : String) (item : JobItemRecord) (after : Option JobItemRecord)
      → get cancelled_world.job_items i ≡ after
      → get w.job_items i ≡ some item
      → item.job_id ≡ job_id
      → is_terminal_item item.state ≡ false
      → unstamped after
        ≡ unstamped
            (some (cancelled_row item operator_error item.updated_at (some (env.clock w.ticks))))
  after_cancel i item after h item_there of_job going = grind (
    arith,
    cancel_job-items i,
    going_cancelled env job_id operator_error (some (env.clock w.ticks)) item of_job going,
  )

  -- The item is in the state cancelled afterwards.
  cancelled_after :
      (i : String) (item : JobItemRecord)
      → get w.job_items i ≡ some item
      → item.job_id ≡ job_id
      → has_ended item.state ≡ false
      → item_state (get cancelled_world.job_items i) ≡ some ItemState.cancelled
  cancelled_after i item item_there of_job going =
      cancelled_state (get cancelled_world.job_items i) item operator_error
        (some (env.clock w.ticks))
        (after_cancel i item (get cancelled_world.job_items i) refl item_there of_job
          (ground arith))

  -- An item of a stored job that had not ended when the job was cancelled, and any world in which
  -- the item still has the state that `cancel_job` left it in, whatever else happened since. The
  -- publish of a pending row for the item, unless its message is a low-persistence one, then gives
  -- nothing to the bus: the row is marked published, with one more attempt and without an error.
  -- The items are under distinct identifiers at the cancellation.
  pub cancelled_never_published :
      (env' : Env) (outbox row : OutboxRecord) (u : Bool) (i : String) (item : JobItemRecord)
      (later : World)
      → get w.job_items i ≡ some item
      → item.job_id ≡ job_id
      → has_ended item.state ≡ false
      → item_state (get later.job_items i)
        ≡ item_state (get (cancel_job env job_id w).1.job_items i)
      → get later.outbox outbox.outbox_id ≡ some row
      → row.outbox_id ≡ outbox.outbox_id
      → row.publish_state ≡ PublishState.pending
      → item_of row.payload ≡ some i
      → is_low_persistence_scan_only row.payload ≡ false
      → ((publish_outbox_record env' outbox u later).1.published ≡ later.published)
        × (delivery (get (publish_outbox_record env' outbox u later).1.outbox outbox.outbox_id)
            ≡ some (PublishState.published, row.publish_attempts + 1, none))
  cancelled_never_published env' outbox row u i item later item_there of_job going same there ids
        pend of high =
      publish_stopped env' outbox row u i later (get later.job_items i) there ids pend of high refl
        (same ∙ cancelled_after i item item_there of_job going)

-- `cancel_job` on a stored job, with the items under distinct identifiers: the job is cancelled with
-- the operator's error; each item, but for the time of its last write, is what it was if it belongs to
-- another job or is completed, failed or cancelled, and else it is cancelled, with the same error
-- and the time of the call as its end; and the outbox and what was published stay as they were.
pub cancel_job_lem :
    (env : Env) (job_id : String) (job : JobRecord) (w : World) (j : String)
    → get w.jobs job_id ≡ some job
    → job.job_id ≡ job_id
    → IsDict w.job_items
    → (status (get (cancel_job env job_id w).1.jobs job_id)
        ≡ some (JobState.cancelled, operator_error))
      × (unstamped (get (cancel_job env job_id w).1.job_items j)
          ≡ unstamped (stopped job_id (env.clock w.ticks) (get w.job_items j)))
      × ((cancel_job env job_id w).1.outbox ≡ w.outbox)
      × ((cancel_job env job_id w).1.published ≡ w.published)
cancel_job_lem env job_id job w j found same_id keyed = (
  cancel_job-status env job_id job w found same_id keyed,
  cancel_job-items env job_id job w found same_id keyed j
      ∙ ap unstamped (cancel_row-stopped env job_id (env.clock w.ticks) (get w.job_items j)),
  (cancel_job-outbox env job_id job w found same_id keyed).0,
  (cancel_job-outbox env job_id job w found same_id keyed).1,
)
