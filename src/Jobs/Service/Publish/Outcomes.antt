-- ===== src/Jobs/Service/Publish/Outcomes.antt =====
-- The outcomes of `_publish_outbox_record`: the message dropped, handed over, or failed.
use dsx_connect.Prelude.{
  ℕ, suc, String, ◌≡◌, Bool, true, false, Option, none, some, arith, eq_refl, ◌+◌, if◌then◌else◌,
}
use dsx_connect.Prelude.Value.{Fields}
use dsx_connect.Prelude.Dict.{get, put, get-put}
use dsx_connect.Jobs.Models.{PublishState, OutboxRecord, JobItemRecord, Envelope}
use dsx_connect.Jobs.World.{World, Env, ok, ◌>>◌}
use dsx_connect.Jobs.World.Keeps.{Leads, Leads-first, keeps_rules}
use dsx_connect.Jobs.Repository.Outbox.{
  claim_outbox_record, mark_outbox_published, mark_outbox_failed,
}
use dsx_connect.Jobs.Repository.Outbox.Claims.{delivery}
use dsx_connect.Jobs.Repository.Items.{get_job_item, update_job_item_state}
use dsx_connect.Jobs.Repository.JobTable.{update_job_state}
use dsx_connect.Jobs.Service.Lookup.{message_error}
use dsx_connect.Jobs.Service.Parent.Frame.{refresh-JobsOnly}
use dsx_connect.Jobs.Service.Publish.Frame.{Stable, failed_rest, published_rest}
use dsx_connect.Jobs.Service.Publish.{
  queue_scan_item, item_of, dropped, is_low_persistence_scan_only, publish_outbox_record,
  publish_claimed, send, after_success, after_failure, after_publish,
}

-- The delivery of one row is `x`.
abbrev pub Delivers : String → Option (PublishState × ℕ × Option Fields) → World → Type 0
Delivers id x v = delivery (get v.outbox id) ≡ x

module _ (env : Env) (id : String) (x : Option (PublishState × ℕ × Option Fields)) where
  Delivers-Stable : Stable env (Delivers id x)
  unfolding update_job_state
  Delivers-Stable = record {
    on_items = λ v t items h. h;
    on_job_state = λ j state error t. record { at = λ v h. ground arith };
    on_refresh = λ j. record { at = λ v h. grind (arith, refresh-JobsOnly) };
  }

module _ (env : Env) (claimed : OutboxRecord) (e : Envelope) (update_item_stage : Bool) where
  abbrev Claimed : World → Type 0
  Claimed v = get v.outbox claimed.outbox_id ≡ some claimed

  failure_first :
      (error : Option Fields)
      → Leads Claimed
          (Delivers claimed.outbox_id
            (some (PublishState.pending, claimed.publish_attempts + 1, error)))
          (mark_outbox_failed env claimed.outbox_id error)
  unfolding mark_outbox_failed
  failure_first error = record { at = λ v h. grind (arith, get-put, eq_refl) }

  success_first :
      Leads Claimed
        (Delivers claimed.outbox_id
          (some (PublishState.published, claimed.publish_attempts + 1, none)))
        (mark_outbox_published env claimed.outbox_id)
  unfolding mark_outbox_published
  success_first = record { at = λ v h. grind (arith, get-put, eq_refl) }

  after_failure-Leads :
      (text : String)
      → Leads Claimed
          (Delivers claimed.outbox_id (
            some (
              PublishState.pending,
              claimed.publish_attempts + 1,
              message_error "job_publish_failed" text,
            )))
          (after_failure env claimed e update_item_stage text)
  unfolding after_failure
  after_failure-Leads text = search (
    Leads-first,
    keeps_rules,
    failure_first,
    failed_rest env
        (Delivers claimed.outbox_id (
          some (
            PublishState.pending,
            claimed.publish_attempts + 1,
            message_error "job_publish_failed" text,
          )))
        (Delivers-Stable env claimed.outbox_id _),
  )

  after_success-Leads :
      (job_id : String)
      → Leads Claimed
          (Delivers claimed.outbox_id
            (some (PublishState.published, claimed.publish_attempts + 1, none)))
          (after_success env claimed job_id e update_item_stage)
  unfolding after_success
  after_success-Leads job_id = search (
    Leads-first,
    keeps_rules,
    success_first,
    published_rest env
        (Delivers claimed.outbox_id
          (some (PublishState.published, claimed.publish_attempts + 1, none)))
        (Delivers-Stable env claimed.outbox_id _),
  )

-- Is the message held back, as its item stands?
unfoldable pub held_back : Envelope → World → Bool
unfolding get
held_back e w = elim (item_of e) [
  | none ↦ false
  | some i ↦ dropped e (if is_low_persistence_scan_only e then none else get w.job_items i)
]

-- The bus answers `answer` to the message, and leaves the outbox as it is.
pub record BusAnswers (env : Env) (e : Envelope) (answer : Option String) : Type 0 where
  pub answers : (v : World) → (env.publish e v).0 ≡ answer
  pub keeps_outbox : (v : World) → (env.publish e v).1.outbox ≡ v.outbox

-- What a publish leaves as the delivery of a row that goes out.
abbrev pub answered : Option String → OutboxRecord → Option (PublishState × ℕ × Option Fields)
answered (some text) row =
    some (PublishState.pending, row.publish_attempts + 1, message_error "job_publish_failed" text)
answered none row = some (PublishState.published, row.publish_attempts + 1, none)

module _ (env : Env) (claimed : OutboxRecord) (job_id : String) (u : Bool) (answer : Option String)
    (bus : BusAnswers env claimed.payload answer) where
  abbrev Answered : World → Type 0
  Answered = Delivers claimed.outbox_id (answered answer claimed)

  after_publish-Leads :
      (a : Option String)
      → Leads
          (Claimed env claimed claimed.payload u)
          (Delivers claimed.outbox_id (answered a claimed))
          (after_publish env claimed job_id claimed.payload u a)
  after_publish-Leads none = after_success-Leads env claimed claimed.payload u job_id
  after_publish-Leads (some text) = after_failure-Leads env claimed claimed.payload u text

  send-Leads :
      Leads
        (Claimed env claimed claimed.payload u)
        Answered
        (send env claimed job_id claimed.payload u)
  unfolding send
  send-Leads = record {
    at = λ v c. grind (
      arith,
      bus.answers v,
      bus.keeps_outbox v,
      (after_publish-Leads answer).at (env.publish claimed.payload v).1,
    );
  }

  queue_send-Leads :
      (item : Option JobItemRecord) (i : String)
      → Leads
          (Claimed env claimed claimed.payload u)
          Answered
          (queue_scan_item env claimed.payload item i >> send env claimed job_id claimed.payload u)
  unfolding update_job_item_state
  queue_send-Leads item i = record { at = λ v c. grind (arith, send-Leads.at) }

  publish_claimed-Answered :
      (v : World)
      → get v.outbox claimed.outbox_id ≡ some claimed
      → held_back claimed.payload v ≡ false
      → Answered (publish_claimed env claimed job_id u v).1
  unfolding publish_claimed get_job_item held_back
  publish_claimed-Answered v c goes_out = grind (
    arith,
    λ (item : Option JobItemRecord) (i : String). (queue_send-Leads item i).at v c,
    send-Leads.at v c,
  )

module _ (env : Env) (outbox row : OutboxRecord) (update_item_stage : Bool) (w : World)
    (found : get w.outbox outbox.outbox_id ≡ some row) (same_id : row.outbox_id ≡ outbox.outbox_id)
    (is_pending : row.publish_state ≡ PublishState.pending) where
  abbrev pub after : World
  after = (publish_outbox_record env outbox update_item_stage w).1

  -- A pending row whose message names a stored item, is no low-persistence one, and is dropped (the
  -- item is cancelled, or the message asks for the scan of an item that has ended) is marked
  -- published with one more attempt and without an error, and nothing reaches the bus.
  pub publish_dropped :
      (i : String) (item : JobItemRecord)
      → item_of row.payload ≡ some i
      → is_low_persistence_scan_only row.payload ≡ false
      → get w.job_items i ≡ some item
      → dropped row.payload (some item) ≡ true
      → (after.published ≡ w.published)
        × (delivery (get after.outbox outbox.outbox_id)
            ≡ some (PublishState.published, row.publish_attempts + 1, none))
  unfolding publish_outbox_record publish_claimed claim_outbox_record mark_outbox_published
      get_job_item
  publish_dropped i item of_item high there drop = grind (arith, get-put, eq_refl, refresh-JobsOnly)

  -- The row and the world after the claim.
  abbrev taken : OutboxRecord
  taken = record row { publish_state = PublishState.publishing; updated_at = env.clock w.ticks }

  abbrev taken_world : World
  unfolding put
  taken_world = record w { ticks = suc w.ticks; outbox = put w.outbox outbox.outbox_id taken }

  claim_taken : claim_outbox_record env outbox.outbox_id w ≡ (ok (some taken), taken_world)
  unfolding claim_outbox_record
  claim_taken = ground arith

  taken_there : get taken_world.outbox taken.outbox_id ≡ some taken
  unfolding taken_world
  taken_there = grind (arith, get-put, eq_refl)

  publish_taken : after ≡ (publish_claimed env taken outbox.job_id update_item_stage taken_world).1
  unfolding publish_outbox_record
  publish_taken = grind (arith, claim_taken)

  -- A pending row whose message is not held back is delivered as the bus answers: without an error of
  -- the bus it ends published, and with one it ends pending again, so that it can be claimed once
  -- more, with the error on record; one attempt is counted in both cases. The bus is assumed to give
  -- one answer to the message and to leave the outbox as it is.
  pub publish_answered :
      (answer : Option String)
      → held_back row.payload w ≡ false
      → BusAnswers env row.payload answer
      → delivery (get after.outbox outbox.outbox_id) ≡ answered answer row
  unfolding taken_world held_back
  publish_answered answer goes_out bus = grind (
    arith,
    publish_taken,
    publish_claimed-Answered env taken outbox.job_id update_item_stage answer bus taken_world
        taken_there goes_out,
  )
