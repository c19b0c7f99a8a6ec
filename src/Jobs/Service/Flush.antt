-- ===== src/Jobs/Service/Flush.antt =====
-- dsx_connect_ng/dsx_connect_ng/jobs/service.py: `flush_outbox`, the relay of pending outbox rows. The timings and
-- ages that its result reports are left out.
pub mod Selection
pub mod Total
use dsx_connect.Prelude.{
  ℕ, ◌+◌, ◌-◌, min, suc, String, Bool, true, false, Option, none, some, List, [], ◌∷◌, ◌++◌,
  if◌then◌else◌, ◌&&◌, ◌||◌, not, length, all, any, is_empty, str_eq, or_else,
}
use mathlib.Core.List.{map}
use dsx_connect.Prelude.Dict.{Dict, get}
use dsx_connect.Prelude.Value.{get_field, is_true, is_text, is_false, Value, str}
use dsx_connect.Jobs.Models.{
  JobState, PublishState, JobRecord, JobItemRecord, OutboxRecord, JobItemSummary,
}
use dsx_connect.Jobs.World.{World, Env, M, ◌>>=◌, ◌>>◌, pure, gets}
use dsx_connect.Jobs.Repository.JobTable.{list_jobs}
use dsx_connect.Jobs.Repository.Items.{list_job_items}
use dsx_connect.Jobs.Repository.Summary.{summarize_job_items}
use dsx_connect.Jobs.Repository.Outbox.{
  claim_outbox_records, mark_outbox_published_many, mark_outbox_failed, get_outbox_record,
}
use dsx_connect.Jobs.Repository.Fair.{list_outbox_records_fair}
use dsx_connect.Jobs.Service.Lookup.{message_error}
use dsx_connect.Jobs.Service.Parent.{refresh_parent_job_state}
use dsx_connect.Jobs.Service.Publish.{
  is_low_persistence_scan_only, bus_publish, publish_outbox_record,
}
use dsx_connect.Jobs.Service.ScanOnly.{refresh_jobs, add_id}

abbrev scan_only_payload : JobItemRecord → Bool
scan_only_payload item =
    is_true (get_field item.payload "scanOnly") || is_true (get_field item.payload "scan_only")

-- `_is_scan_only_batch_job`
unfoldable pub is_scan_only_batch_job : JobRecord → List JobItemRecord → Bool
is_scan_only_batch_job job items =
    is_true (get_field job.payload "scanOnly")
    || is_true (get_field job.payload "scan_only")
    || not (is_empty items) && all scan_only_payload items

abbrev is_terminal_job : JobState → Bool
is_terminal_job JobState.completed = true
is_terminal_job JobState.failed = true
is_terminal_job JobState.cancelled = true
is_terminal_job _ = false

-- `job.effective_recovery_mode != "item"`
abbrev not_item_mode : JobRecord → Bool
not_item_mode job = not (is_text (get_field job.payload "effectiveRecoveryMode") "item")

-- What one job adds to the count.
unfoldable pub active_items_of : World → JobRecord → ℕ
active_items_of w job =
    let items : List JobItemRecord = list_job_items job.job_id none 1000000 w in
    let summary : JobItemSummary = summarize_job_items job.job_id w in
    if is_terminal_job job.state
    then 0
    else if not_item_mode job && is_scan_only_batch_job job items
    then 0
    else summary.queued + summary.scanning + summary.scanned

unfoldable pub sum_active : World → List JobRecord → ℕ
sum_active w [] = 0
sum_active w (job ∷ jobs) = active_items_of w job + sum_active w jobs

unfoldable pub active_scan_item_count : M ℕ
active_scan_item_count = do jobs ← list_jobs none none 1000; gets (λ w. sum_active w jobs)

-- A row and whether it counts as published.
abbrev pub Outcome : Type 0
Outcome = Bool × OutboxRecord

-- The publish loop of the low-persistence path: the outcomes of the failed rows, and the rows that
-- the bus took.
unfoldable pub publish_claimed_rows : Env → List OutboxRecord → M (List Outcome × List OutboxRecord)
publish_claimed_rows env [] = pure ([], [])
publish_claimed_rows env (outbox ∷ rest) = do
  failure ← bus_publish env outbox.payload
  elim failure [
    | none ↦ do (failed, taken) ← publish_claimed_rows env rest; pure (failed, outbox ∷ taken)
    | some text ↦ do
      marked ← mark_outbox_failed env outbox.outbox_id (message_error "job_publish_failed" text)
      (failed, taken) ← publish_claimed_rows env rest
      pure ((false, or_else marked outbox) ∷ failed, taken)
  ]

-- `published_by_id.get(outbox.outbox_id, outbox)`: of rows with one id the last counts.
abbrev row_with_id : String → List OutboxRecord → OutboxRecord → OutboxRecord
row_with_id id [] d = d
row_with_id id (r ∷ rs) d = row_with_id id rs (if str_eq r.outbox_id id then r else d)

abbrev published_outcome : List OutboxRecord → OutboxRecord → Outcome
published_outcome published_rows outbox = (true, row_with_id outbox.outbox_id published_rows outbox)

abbrev has_id : String → OutboxRecord → Bool
has_id id row = str_eq row.outbox_id id

-- The rows that someone else had claimed.
unfoldable pub unclaimed_outcomes : List OutboxRecord → List OutboxRecord → M (List Outcome)
unclaimed_outcomes claimed [] = pure []
unclaimed_outcomes claimed (record' ∷ rest) = do
  found ← get_outbox_record record'.outbox_id
  others ← unclaimed_outcomes claimed rest
  let next : List Outcome = (true, or_else found record') ∷ others
  pure (if any (has_id record'.outbox_id) claimed then others else next)

abbrev pub outbox_ids : List OutboxRecord → List String
outbox_ids rows = map (λ (r : OutboxRecord). r.outbox_id) rows

unfoldable pub publish_low_persistence : Env → List OutboxRecord → M (List Outcome)
publish_low_persistence env records = do
  claimed ← claim_outbox_records env (outbox_ids records)
  (failed, taken) ← publish_claimed_rows env claimed
  published_rows ← mark_outbox_published_many env (outbox_ids taken)
  unclaimed ← unclaimed_outcomes claimed records
  pure (failed ++ (map (published_outcome published_rows) taken ++ unclaimed))

-- `[await self._publish_outbox_record(record) for record in records]`
unfoldable pub publish_each : Env → List OutboxRecord → M (List Outcome)
publish_each env [] = pure []
publish_each env (row ∷ rows) = do
  outcome ← publish_outbox_record env row true
  outcomes ← publish_each env rows
  pure (outcome ∷ outcomes)

pub record OutboxFlushResult : Type 0 where
  pub attempted : ℕ
  pub published : ℕ
  pub failed : ℕ
  pub active_scan_items : Option ℕ
  pub publish_capacity : Option ℕ
  pub records : List OutboxRecord

-- The loop over `zip(records, publish_results)`, with the jobs whose scan requests went out.
unfoldable pub tally :
    List OutboxRecord
    → List Outcome
    → OutboxFlushResult
    → List String
    → OutboxFlushResult × List String
tally (row ∷ rows) ((true, updated) ∷ outcomes) r ids =
    tally rows outcomes
      (record r { published = suc r.published; records = r.records ++ (updated ∷ []) })
      (if str_eq row.topic "scan.requested" then add_id row.job_id ids else ids)
tally (row ∷ rows) ((false, updated) ∷ outcomes) r ids =
    tally rows outcomes (record r { failed = suc r.failed; records = r.records ++ (updated ∷ []) })
      ids
tally _ _ r ids = (r, ids)

-- `max(max_active_scan_items - active_scan_items, 0)`: the truncated difference.
abbrev pub capacity : Option ℕ → ℕ → Option ℕ
capacity none active = none
capacity (some max_active) active = some (max_active - active)

abbrev pub publish_limit : ℕ → Option ℕ → ℕ
publish_limit limit none = limit
publish_limit limit (some c) = min limit c

abbrev count_if_limited : Option ℕ → M (Option ℕ)
count_if_limited none = pure none
count_if_limited (some max_active) = do n ← active_scan_item_count; pure (some n)

abbrev low_persistence_row : OutboxRecord → Bool
low_persistence_row row =
    str_eq row.topic "scan.requested" && is_low_persistence_scan_only row.payload

abbrev publish_rows : Env → List OutboxRecord → M (List Outcome)
publish_rows env records =
    if not (is_empty records) && all low_persistence_row records
    then publish_low_persistence env records
    else publish_each env records

unfoldable pub flush_outbox : Env → ℕ → Option ℕ → M OutboxFlushResult
flush_outbox env limit max_active_scan_items = do
  active ← count_if_limited max_active_scan_items
  let room = capacity max_active_scan_items (or_else active 0)
  records ← gets (list_outbox_records_fair (some PublishState.pending) (publish_limit limit room))
  outcomes ← publish_rows env records
  let start : OutboxFlushResult = record {
    attempted = length records;
    published = 0;
    failed = 0;
    active_scan_items = active;
    publish_capacity = room;
    records = [];
  }
  let counted : OutboxFlushResult × List String = tally records outcomes start []
  refresh_jobs env counted.1
  pure counted.0
