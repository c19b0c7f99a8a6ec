-- ===== src/Jobs/Service/Flush/Selection.antt =====
-- How many rows `flush_outbox` takes up.
use Prim.Native.Nat.{◌+◌, ◌-◌, ◌≤◌, min, max}
use dsx_connect.Prelude.{
  ℕ, ◌≡◌, some, List, [], ◌∷◌, true, false, String, arith, length, count, suc, ◌++◌, if◌then◌else◌,
  str_eq,
}
use dsx_connect.Prelude.Dict.{values}
use dsx_connect.Jobs.Models.{PublishState, OutboxRecord}
use dsx_connect.Jobs.World.{World, Env, Result, ok, raised, continue, ◌>>◌, pure}
use dsx_connect.Jobs.Repository.Outbox.{has_publish_state}
use dsx_connect.Jobs.Repository.Fair.{list_outbox_records_fair}
use dsx_connect.Jobs.Repository.Fair.Length.{length-list_outbox_records_fair}
use dsx_connect.Jobs.Repository.JobTable.{list_jobs}
use dsx_connect.Jobs.Service.ScanOnly.{add_id, refresh_jobs}
use dsx_connect.Jobs.Service.Flush.{
  Outcome, OutboxFlushResult, tally, publish_rows, active_scan_item_count, flush_outbox,
}

-- The rows counted as published or failed.
abbrev settled : OutboxFlushResult → ℕ
settled r = r.published + r.failed

-- What the loop over the outcomes leaves as it was, and that it counts no row twice.
record Tallied (rows : List OutboxRecord) (r r' : OutboxFlushResult) : Type 0 where
  attempted : r'.attempted ≡ r.attempted
  active : r'.active_scan_items ≡ r.active_scan_items
  capacity : r'.publish_capacity ≡ r.publish_capacity
  settled : settled r' ≤ settled r + length rows

tally-Tallied :
    (rows : List OutboxRecord) (outcomes : List Outcome) (r : OutboxFlushResult) (ids : List String)
    → Tallied rows r (tally rows outcomes r ids).0
unfolding tally
tally-Tallied [] outcomes r ids = ground arith
tally-Tallied (row ∷ rows) [] r ids = ground arith
tally-Tallied (row ∷ rows) ((true, updated) ∷ outcomes) r ids =
    let h =
      tally-Tallied rows outcomes
        (record r { published = suc r.published; records = r.records ++ (updated ∷ []) })
        (if str_eq row.topic "scan.requested" then add_id row.job_id ids else ids) in
    ground (arith, h)
tally-Tallied (row ∷ rows) ((false, updated) ∷ outcomes) r ids =
    let h =
      tally-Tallied rows outcomes
        (record r { failed = suc r.failed; records = r.records ++ (updated ∷ []) }) ids in
    ground (arith, h)

module _ (env : Env) (limit max_active active : ℕ) (w : World) where
  abbrev taken : List OutboxRecord
  taken = list_outbox_records_fair (some PublishState.pending) (min limit (max_active - active)) w

  abbrev start : OutboxFlushResult
  start = record {
    attempted = length taken;
    published = 0;
    failed = 0;
    active_scan_items = some active;
    publish_capacity = some (max_active - active);
    records = [];
  }

  -- The end of the flush, from the answer of the publishes.
  after_publishes :
      (r : OutboxFlushResult) (answer : Result (List Outcome)) (v : World)
      → (continue answer
          (λ outcomes. do
            refresh_jobs env (tally taken outcomes start []).1
            pure (tally taken outcomes start []).0)
          v).0
        ≡ ok r
      → Tallied taken start r
  after_publishes r (raised x) v h = absurd (ground arith)
  after_publishes r (ok outcomes) v h = grind (arith, tally-Tallied taken outcomes start [])

  counted_world :
      (active_scan_item_count w).0 ≡ ok active → active_scan_item_count w ≡ (ok active, w)
  unfolding active_scan_item_count list_jobs
  counted_world counted = ground arith

  returned_rest :
      (r : OutboxFlushResult)
      → active_scan_item_count w ≡ (ok active, w)
      → (flush_outbox env limit (some max_active) w).0 ≡ ok r
      → (continue
          (publish_rows env taken w).0
          (λ outcomes. do
            refresh_jobs env (tally taken outcomes start []).1
            pure (tally taken outcomes start []).0)
          (publish_rows env taken w).1).0
        ≡ ok r
  unfolding flush_outbox
  returned_rest r counted returned = rw counted at returned

  flush-Tallied :
      (r : OutboxFlushResult)
      → (active_scan_item_count w).0 ≡ ok active
      → (flush_outbox env limit (some max_active) w).0 ≡ ok r
      → Tallied taken start r
  flush-Tallied r counted returned =
      after_publishes r (publish_rows env taken w).0 (publish_rows env taken w).1
        (returned_rest r (counted_world counted) returned)

  -- What a flush that returns reports.
  pub flush_report :
      (r : OutboxFlushResult)
      → (active_scan_item_count w).0 ≡ ok active
      → (flush_outbox env limit (some max_active) w).0 ≡ ok r
      → (r.active_scan_items ≡ some active)
        × (r.publish_capacity ≡ some (max_active - active))
        × (r.attempted
            ≡ min limit (
                min
                  (max_active - active)
                  (count (has_publish_state (some PublishState.pending)) (values w.outbox))))
        × (active + r.attempted ≤ max active max_active)
        × (r.published + r.failed ≤ r.attempted)
  flush_report r counted returned =
      let t = flush-Tallied r counted returned in
      let h =
        length-list_outbox_records_fair (some PublishState.pending)
          (min limit (max_active - active)) w in
      (t.active, t.capacity, ground arith, ground arith, ground arith)
