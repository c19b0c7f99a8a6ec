-- ===== src/Jobs/Repository/Items.antt =====
-- dsx_connect_ng/dsx_connect_ng/jobs/repository.py: the methods on job items and scan leases.
pub mod Over
pub mod Cancelling
pub mod Bulk
use text.Mathlib.Text.{◌==◌}
use Prim.Native.Nat.{◌+◌}
use dsx_connect.Prelude.{
  ℕ, String, Bool, true, Option, none, some, List, [], ◌∷◌, if◌then◌else◌, take, filter, ◌&&◌, any,
  count,
}
use dsx_connect.Prelude.Dict.{get, put, pop, values}
use dsx_connect.Prelude.Sort.{sort_by, ascending}
use dsx_connect.Prelude.Value.{Fields}
use dsx_connect.Jobs.Models.{
  ItemState, JobItemRecord, JobItemCreate, StageRecord, StageName, ContentSource, is_item_state,
  get_stage, set_stage, is_running, is_terminal_stage,
}
use dsx_connect.Jobs.World.{World, Env, M, ◌>>=◌, ◌>>◌, pure, gets, modify, utcnow}
use dsx_connect.Jobs.Repository.JobTable.{given_id, or_uuid}

abbrev has_item_state : Option ItemState → JobItemRecord → Bool
has_item_state none row = true
has_item_state (some s) row = is_item_state row.state s

abbrev pub of_job : String → JobItemRecord → Bool
of_job job_id row = row.job_id == job_id

-- The rows of `list_job_items` before they are sorted and cut.
unfoldable pub list_job_items : String → Option ItemState → ℕ → World → List JobItemRecord
unfolding values sort_by
list_job_items job_id state limit w = take limit (
    sort_by (ascending (λ row. row.item_index))
      (filter (has_item_state state) (filter (of_job job_id) (values w.job_items))))

unfoldable pub get_job_item : String → M (Option JobItemRecord)
unfolding get
get_job_item job_item_id = gets (λ w. get w.job_items job_item_id)

-- `self._job_items[job_item_id] = row`
abbrev pub put_item : String → JobItemRecord → M (Unit {0})
unfolding put
put_item job_item_id row = modify (λ w. record w { job_items = put w.job_items job_item_id row })

-- The record that `create_job_item` builds.
abbrev pub new_item : String → JobItemCreate → ℕ → ℕ → JobItemRecord
new_item job_item_id p created_at updated_at = record {
  job_item_id = job_item_id;
  job_id = p.job_id;
  item_index = p.item_index;
  object_identity = p.object_identity;
  state = p.state;
  payload = p.payload;
  content_source = p.content_source;
  delivery_requirements = p.delivery_requirements;
  error = p.error;
  scan_stage = p.scan_stage;
  policy_stage = p.policy_stage;
  remediation_stage = p.remediation_stage;
  delivery_stage = p.delivery_stage;
  dianna_stage = p.dianna_stage;
  created_at = created_at;
  updated_at = updated_at;
  completed_at = none;
}

unfoldable pub create_job_item : Env → JobItemCreate → M JobItemRecord
unfolding put
create_job_item env p = do
  job_item_id ← or_uuid env "job_item_" (given_id p.job_item_id)
  created_at ← utcnow env
  updated_at ← utcnow env
  let row : JobItemRecord = new_item job_item_id p created_at updated_at
  put_item job_item_id row
  pure row

unfoldable pub update_job_item_state :
    Env → String → ItemState → Option Fields → Option ℕ → M (Option JobItemRecord)
unfolding get put
update_job_item_state env job_item_id state error completed_at = do
  found ← gets (λ w. get w.job_items job_item_id)
  elim found [
    | none ↦ pure none
    | some current ↦ do
      now ← utcnow env
      let merged : JobItemRecord = record current {
        state = state;
        error = error;
        updated_at = now;
        completed_at = completed_at;
      }
      put_item job_item_id merged
      pure (some merged)
  ]

-- The copy of a row that `cancel_job_items` writes.
abbrev pub cancelled_row : JobItemRecord → Option Fields → ℕ → Option ℕ → JobItemRecord
cancelled_row current error now completed_at = record current {
  state = ItemState.cancelled;
  error = error;
  updated_at = now;
  completed_at = completed_at;
}

-- `current.job_id == job_id and current.state in states`
abbrev pub cancellable : String → List ItemState → JobItemRecord → Bool
cancellable job_id states current =
    of_job job_id current && any (is_item_state current.state) states

-- The loop of `cancel_job_items` over the snapshot of the items; `cancelled` is the counter.
unfoldable pub cancel_loop :
    Env
    → String
    → List ItemState
    → Option Fields
    → Option ℕ
    → List (String × JobItemRecord)
    → ℕ
    → M ℕ
unfolding put
cancel_loop env job_id states error completed_at [] cancelled = pure cancelled
cancel_loop env job_id states error completed_at ((job_item_id, current) ∷ rest) cancelled =
    let skip : M ℕ = cancel_loop env job_id states error completed_at rest cancelled in
    let next : M ℕ = cancel_loop env job_id states error completed_at rest (cancelled + 1) in
    if cancellable job_id states current
    then (do
      now ← utcnow env
      put_item job_item_id (cancelled_row current error now completed_at)
      next)
    else skip

unfoldable pub cancel_job_items : Env → String → List ItemState → Option Fields → Option ℕ → M ℕ
unfolding cancel_loop
cancel_job_items env job_id states error completed_at = do
  snapshot ← gets (λ w. w.job_items)
  cancel_loop env job_id states error completed_at snapshot 0

-- A late `running` never replaces a stage that has ended.
unfoldable pub update_job_item_stage :
    Env
    → String
    → StageName
    → StageRecord
    → ItemState
    → Option Fields
    → Option ℕ
    → M (Option JobItemRecord)
unfolding get put
update_job_item_stage env job_item_id stage_name stage_record state error completed_at = do
  found ← gets (λ w. get w.job_items job_item_id)
  elim found [
    | none ↦ pure none
    | some current ↦
        if is_running stage_record.state && is_terminal_stage (get_stage stage_name current).state
        then pure (some current)
        else do
          now ← utcnow env
          let merged : JobItemRecord = record (set_stage stage_name stage_record current) {
            state = state;
            error = error;
            updated_at = now;
            completed_at = completed_at;
          }
          put_item job_item_id merged
          pure (some merged)
  ]

-- `update.update(stage_records)`: each stage of the dict replaces the item's.
abbrev pub set_stages : List (StageName × StageRecord) → JobItemRecord → JobItemRecord
set_stages [] row = row
set_stages ((name, stage) ∷ rest) row = set_stages rest (set_stage name stage row)

unfoldable pub update_job_item_stages :
    Env
    → String
    → List (StageName × StageRecord)
    → ItemState
    → Option Fields
    → Option ℕ
    → M (Option JobItemRecord)
unfolding get put
update_job_item_stages env job_item_id stage_records state error completed_at = do
  found ← gets (λ w. get w.job_items job_item_id)
  elim found [
    | none ↦ pure none
    | some current ↦ do
      now ← utcnow env
      let merged : JobItemRecord = set_stages stage_records (record current {
        state = state;
        error = error;
        updated_at = now;
        completed_at = completed_at;
      })
      put_item job_item_id merged
      pure (some merged)
  ]

-- One entry of the list that `update_job_items_stages_bulk` takes.
pub record BulkUpdate : Type 0 where
  pub job_item_id : String
  pub stage_records : List (StageName × StageRecord)
  pub state : ItemState
  pub error : Option Fields
  pub completed_at : Option ℕ

-- The loop of `update_job_items_stages_bulk`; a missing item is passed over.
unfoldable pub bulk_loop : Env → List BulkUpdate → ℕ → M ℕ
unfolding update_job_item_stages
bulk_loop env [] updated_count = pure updated_count
bulk_loop env (u ∷ rest) updated_count = do
  row ← update_job_item_stages env u.job_item_id u.stage_records u.state u.error u.completed_at
  bulk_loop env rest (elim row [ none ↦ updated_count | some r ↦ updated_count + 1 ])

unfoldable pub update_job_items_stages_bulk : Env → List BulkUpdate → M ℕ
unfolding bulk_loop
update_job_items_stages_bulk env updates = bulk_loop env updates 0

unfoldable pub mark_scan_runtime_started : Env → String → String → M (Unit {0})
unfolding put
mark_scan_runtime_started env job_id job_item_id = do
  now ← utcnow env
  modify (λ w. record w { scan_leases = put w.scan_leases job_item_id (job_id, now) })

unfoldable pub clear_scan_runtime : String → M (Unit {0})
unfolding pop
clear_scan_runtime job_item_id =
    modify (λ w. record w { scan_leases = pop w.scan_leases job_item_id })

abbrev leases_of : String → String × ℕ → Bool
leases_of job_id (lease_job_id, started_at) = lease_job_id == job_id

unfoldable pub count_active_scan_runtime : String → World → ℕ
unfolding values
count_active_scan_runtime job_id w = count (leases_of job_id) (values w.scan_leases)

unfoldable pub update_job_item_delivery_requirements :
    Env → String → Bool → M (Option JobItemRecord)
unfolding get put
update_job_item_delivery_requirements env job_item_id wait_for_dianna = do
  found ← gets (λ w. get w.job_items job_item_id)
  elim found [
    | none ↦ pure none
    | some current ↦ do
      now ← utcnow env
      let merged : JobItemRecord = record current {
        delivery_requirements = record { wait_for_dianna = wait_for_dianna };
        updated_at = now;
      }
      put_item job_item_id merged
      pure (some merged)
  ]

unfoldable pub update_job_item_content_source :
    Env → String → ContentSource → M (Option JobItemRecord)
unfolding get put
update_job_item_content_source env job_item_id content_source = do
  found ← gets (λ w. get w.job_items job_item_id)
  elim found [
    | none ↦ pure none
    | some current ↦ do
      now ← utcnow env
      let merged : JobItemRecord = record current {
        content_source = content_source;
        updated_at = now;
      }
      put_item job_item_id merged
      pure (some merged)
  ]
