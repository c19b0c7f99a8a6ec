-- ===== src/Jobs/Service/Publish/Frame.antt =====
-- What `_publish_outbox_record` keeps: any property that its parts keep.
use dsx_connect.Prelude.{ℕ, String, Bool, Option, none, some, arith}
use dsx_connect.Prelude.Value.{Fields}
use dsx_connect.Prelude.Dict.{Dict}
use dsx_connect.Jobs.Models.{
  JobState, ItemState, StageName, StageRecord, OutboxRecord, JobItemRecord, Envelope,
}
use dsx_connect.Jobs.World.{World, Env}
use dsx_connect.Jobs.World.Keeps.{Keeps, keeps_rules}
use dsx_connect.Jobs.Repository.JobTable.{update_job_state}
use dsx_connect.Jobs.Repository.Items.{get_job_item, update_job_item_state, update_job_item_stage}
use dsx_connect.Jobs.Repository.Outbox.{
  claim_outbox_record, get_outbox_record, mark_outbox_published, mark_outbox_failed,
}
use dsx_connect.Jobs.Service.Parent.{refresh_parent_job_state}
use dsx_connect.Jobs.Service.Publish.{
  item_for, bus_publish, publish_error_item, published_item, failed_target, published_target,
  skip_message, queue_scan_item, after_failure, after_success, after_publish, send, publish_claimed,
  publish_outbox_record, publish_for, publish_if_claimed,
}

-- The bookkeeping on items and jobs keeps `P`.
pub record Stable (env : Env) (P : World → Type 0) : Type 0 where
  pub on_items :
      (w : World) (t : ℕ) (items : Dict JobItemRecord)
      → P w
      → P (record w { ticks = t; job_items = items })
  pub on_job_state :
      (j : String) (state : JobState) (error : Option Fields) (t : Option ℕ)
      → Keeps P (update_job_state env j state error t)
  pub on_refresh : (j : String) → Keeps P (refresh_parent_job_state env j)

-- So do the writes of the outbox, and what the bus does.
pub record Untouched (env : Env) (P : World → Type 0) : Type 0 where
  pub on_outbox :
      (w : World) (t : ℕ) (rows : Dict OutboxRecord)
      → P w
      → P (record w { ticks = t; outbox = rows })
  pub on_publish : (e : Envelope) → Keeps P (bus_publish env e)

-- The writes of the outbox that a publish makes keep `P`, and so does the bus.
pub record Written (env : Env) (P : World → Type 0) : Type 0 where
  pub on_claim : (id : String) → Keeps P (claim_outbox_record env id)
  pub on_published : (id : String) → Keeps P (mark_outbox_published env id)
  pub on_failed : (id : String) (error : Option Fields) → Keeps P (mark_outbox_failed env id error)
  pub on_bus : (e : Envelope) → Keeps P (bus_publish env e)

module _ (env : Env) (P : World → Type 0) (s : Stable env P) where
  item_state :
      (i : String) (state : ItemState) (error : Option Fields) (t : Option ℕ)
      → Keeps P (update_job_item_state env i state error t)
  unfolding update_job_item_state
  item_state i state error t = record { at = λ w h. grind (arith, s.on_items) }

  item_stage :
      (i : String) (name : StageName) (r : StageRecord) (state : ItemState) (error : Option Fields)
      (t : Option ℕ)
      → Keeps P (update_job_item_stage env i name r state error t)
  unfolding update_job_item_stage
  item_stage i name r state error t = record { at = λ w h. grind (arith, s.on_items) }

  get_item : (i : String) → Keeps P (get_job_item i)
  unfolding get_job_item
  get_item i = record { at = λ w h. h }

  error_item :
      (name : Option StageName) (item : Option JobItemRecord) (i : String) (error : Option Fields)
      → Keeps P (publish_error_item env name item i error)
  error_item none item i error = search (keeps_rules, item_state)
  error_item (some n) none i error = search (keeps_rules, item_state)
  error_item (some n) (some item) i error = search (keeps_rules, item_stage)

  get_item_for : (e : Envelope) (i : String) → Keeps P (item_for e i)
  get_item_for e i = search (keeps_rules, get_item)

  went_out :
      (e : Envelope) (i : String) (item : Option JobItemRecord)
      → Keeps P (published_item env e i item)
  went_out e i item = search (keeps_rules, item_state)

  queue_item :
      (e : Envelope) (item : Option JobItemRecord) (i : String)
      → Keeps P (queue_scan_item env e item i)
  queue_item e item i = search (keeps_rules, item_state)

  pub failed_rest :
      (claimed : OutboxRecord) (o : Option String) (e : Envelope) (error : Option Fields)
      → Keeps P (failed_target env claimed o e error)
  failed_rest claimed none e error = search (keeps_rules, s.on_job_state)
  failed_rest claimed (some i) e error = search (keeps_rules, get_item, error_item, s.on_refresh)

  pub published_rest :
      (j : String) (o : Option String) (e : Envelope) → Keeps P (published_target env j o e)
  published_rest j none e = search (keeps_rules, s.on_job_state)
  published_rest j (some i) e = search (keeps_rules, get_item_for, went_out, s.on_refresh)

module _ (env : Env) (P : World → Type 0) (u : Untouched env P) where
  claim : (id : String) → Keeps P (claim_outbox_record env id)
  unfolding claim_outbox_record
  claim id = record { at = λ w h. grind (arith, u.on_outbox) }

  mark_published : (id : String) → Keeps P (mark_outbox_published env id)
  unfolding mark_outbox_published
  mark_published id = record { at = λ w h. grind (arith, u.on_outbox) }

  mark_failed : (id : String) (error : Option Fields) → Keeps P (mark_outbox_failed env id error)
  unfolding mark_outbox_failed
  mark_failed id error = record { at = λ w h. grind (arith, u.on_outbox) }

  pub Untouched-Written : Written env P
  Untouched-Written = record {
    on_claim = claim;
    on_published = mark_published;
    on_failed = mark_failed;
    on_bus = u.on_publish;
  }

module _ (env : Env) (P : World → Type 0) (s : Stable env P) (u : Written env P) where
  get_row : (id : String) → Keeps P (get_outbox_record id)
  unfolding get_outbox_record
  get_row id = record { at = λ w h. h }

  answer_rest :
      (claimed : OutboxRecord) (j : String) (e : Envelope) (b : Bool) (a : Option String)
      → Keeps P (after_publish env claimed j e b a)
  unfolding after_failure after_success
  answer_rest claimed j e b none = search (keeps_rules, u.on_published, published_rest env P s)
  answer_rest claimed j e b (some text) = search (keeps_rules, u.on_failed, failed_rest env P s)

  send-Keeps :
      (claimed : OutboxRecord) (j : String) (e : Envelope) (b : Bool)
      → Keeps P (send env claimed j e b)
  unfolding send
  send-Keeps claimed j e b = search (keeps_rules, u.on_bus, answer_rest)

  skip : (claimed : OutboxRecord) → Keeps P (skip_message env claimed)
  skip claimed = search (keeps_rules, u.on_published, s.on_refresh)

  item_rest :
      (claimed : OutboxRecord) (j : String) (b : Bool) (o : Option String)
      → Keeps P (publish_for env claimed j b o)
  item_rest claimed j b none = send-Keeps claimed j claimed.payload b
  item_rest claimed j b (some i) =
      search (keeps_rules, get_item_for env P s, skip, queue_item env P s, send-Keeps)

  claimed_rest :
      (outbox : OutboxRecord) (b : Bool) (o : Option OutboxRecord)
      → Keeps P (publish_if_claimed env outbox b o)
  unfolding publish_claimed
  claimed_rest outbox b none = search (keeps_rules, get_row)
  claimed_rest outbox b (some claimed) = search (keeps_rules, item_rest)

  pub publish-Keeps :
      (outbox : OutboxRecord) (b : Bool) → Keeps P (publish_outbox_record env outbox b)
  unfolding publish_outbox_record
  publish-Keeps outbox b = search (keeps_rules, u.on_claim, claimed_rest)
