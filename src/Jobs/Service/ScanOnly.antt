-- ===== src/Jobs/Service/ScanOnly.antt =====
-- dsx_connect_ng/dsx_connect_ng/jobs/service.py: `complete_scan_only` and its bulk form, for jobs that end with the
-- scan.
pub mod Bulk
use dsx_connect.Prelude.{
  ℕ, String, Bool, true, false, Option, none, some, List, [], ◌∷◌, if◌then◌else◌, ◌&&◌, ◌||◌, not,
  str_eq, is_empty, any,
}
use dsx_connect.Prelude.Value.{
  Fields, Value, no_fields, field, str, obj, get_field, or_value, has_fields, or_empty,
  text_or_empty,
}
use dsx_connect.Prelude.Text.{strip}
use dsx_connect.Jobs.Models.{
  ItemState, StageName, StageState, StageUpdate, StageUpdateRequest, StageRecord, JobItemRecord,
}
use dsx_connect.Jobs.World.{Env, M, ◌>>=◌, ◌>>◌, pure, utcnow, raise_if, or_404, when, or_invalid}
use dsx_connect.Jobs.Repository.Items.{
  BulkUpdate, update_job_item_stages, update_job_items_stages_bulk,
}
use dsx_connect.Jobs.Service.Lookup.{get_job_item_or_404}
use dsx_connect.Jobs.Service.Parent.{refresh_parent_job_state}
use dsx_connect.Jobs.Service.Choices.{reason_fields}
use dsx_connect.Jobs.Service.Advance.{skipped_stage, is_completed_update}

-- `result.get("verdict") or result.get("verdictName") or ""`
abbrev pub scan_only_verdict : Fields → Option String
scan_only_verdict result =
    text_or_empty (or_value (get_field result "verdict") (get_field result "verdictName"))

abbrev scan_only_dianna : String → Fields
scan_only_dianna v = field "reason" (str "scan_only") (
    if str_eq v ""
    then no_fields
    else field "details" (obj (field "verdict" (str v) no_fields)) no_fields)

-- The stages that it returns, given the start of the scan stage, the time and the verdict
abbrev scan_only_records :
    Option ℕ → StageUpdateRequest → ℕ → String → List (StageName × StageRecord)
scan_only_records started_at payload now verdict =
    (
      StageName.scan_stage,
      record {
        state = StageState.completed;
        started_at = started_at;
        completed_at = some now;
        result = payload.result;
        metadata = payload.metadata;
        error = payload.error;
      },
    )
    ∷ (StageName.policy_stage, skipped_stage now (reason_fields "scan_only"))
    ∷ (StageName.dianna_stage, skipped_stage now (scan_only_dianna verdict))
    ∷ (StageName.remediation_stage, skipped_stage now (reason_fields "scan_only"))
    ∷ (StageName.delivery_stage, skipped_stage now (reason_fields "scan_only"))
    ∷ []

-- `_build_scan_only_completion_stages`: a verdict that is no text has no `strip`.
unfoldable pub scan_only_stages :
    Option ℕ → StageUpdateRequest → ℕ → M (List (StageName × StageRecord))
scan_only_stages started_at payload now = do
  verdict ← or_invalid (scan_only_verdict (or_empty payload.result))
  pure (scan_only_records started_at payload now (strip verdict))

-- `payload.state != "completed" or not payload.result`
abbrev pub not_scanned : StageUpdateRequest → Bool
not_scanned payload =
    not (is_completed_update payload.state) || not (has_fields (or_empty payload.result))

unfoldable pub complete_scan_only : Env → String → StageUpdateRequest → M JobItemRecord
complete_scan_only env job_item_id payload = do
  raise_if (not_scanned payload) 409 "scan_only_requires_completed_scan"
  current ← get_job_item_or_404 job_item_id
  now ← utcnow env
  stage_records ← scan_only_stages current.scan_stage.started_at payload now
  updated ←
      update_job_item_stages env current.job_item_id stage_records ItemState.completed none
        (some now)
  or_404 updated "job_item_not_found"

-- One entry of the list of updates: the job, the item and the payload.
abbrev pub ScanOnlyUpdate : Type 0
ScanOnlyUpdate = String × String × StageUpdateRequest

-- The rows of the bulk write; the first bad payload raises, before anything is written.
unfoldable pub scan_only_rows : Env → List ScanOnlyUpdate → M (List BulkUpdate)
scan_only_rows env [] = pure []
scan_only_rows env ((job_id, job_item_id, payload) ∷ rest) = do
  raise_if (not_scanned payload) 409 "scan_only_requires_completed_scan"
  now ← utcnow env
  stage_records ← scan_only_stages none payload now
  rows ← scan_only_rows env rest
  let row : BulkUpdate = record {
    job_item_id = job_item_id;
    stage_records = stage_records;
    state = ItemState.completed;
    error = none;
    completed_at = some now;
  }
  pure (row ∷ rows)

-- `{job_id for job_id, … in updates}`: each job once. The order of a set is Python's to choose.
abbrev pub add_id : String → List String → List String
add_id j ids = if any (str_eq j) ids then ids else j ∷ ids

unfoldable pub job_ids_of : List ScanOnlyUpdate → List String
job_ids_of [] = []
job_ids_of ((job_id, job_item_id, payload) ∷ rest) = add_id job_id (job_ids_of rest)

unfoldable pub refresh_jobs : Env → List String → M (Unit {0})
refresh_jobs env [] = pure tt
refresh_jobs env (job_id ∷ rest) = do refresh_parent_job_state env job_id; refresh_jobs env rest

-- With a repository that has the bulk write, as `InMemoryJobRepository` has.
unfoldable pub complete_scan_only_bulk : Env → List ScanOnlyUpdate → Bool → M ℕ
complete_scan_only_bulk env [] refresh_parent = pure 0
complete_scan_only_bulk env (u ∷ us) refresh_parent = do
  rows ← scan_only_rows env (u ∷ us)
  count ← update_job_items_stages_bulk env rows
  when refresh_parent (refresh_jobs env (job_ids_of (u ∷ us)))
  pure count
