-- ===== src/Jobs/Service/Stages.antt =====
-- dsx_connect_ng/dsx_connect_ng/jobs/service.py: `_derive_item_state_from_stages` and `_update_job_item_stage`.
pub mod Derive
pub mod Over
pub mod Returns
pub mod ItemsOnly
use dsx_connect.Prelude.{
  ℕ, String, Bool, true, false, Option, none, some, List, if◌then◌else◌, ◌&&◌, ◌||◌, not,
}
use dsx_connect.Prelude.Value.{Fields}
use dsx_connect.Jobs.Models.{
  ItemState, StageState, StageName, StageRecord, StageUpdate, StageUpdateRequest, JobItemRecord,
  get_stage, set_stage, to_stage_state, is_terminal_stage, is_running, is_failed, is_completed,
  is_pending, is_skipped,
}
use dsx_connect.Jobs.World.{Env, M, ◌>>=◌, ◌>>◌, pure, raise, http, utcnow, when, or_404, or_500}
use dsx_connect.Jobs.Repository.Items.{update_job_item_stage, get_job_item}
use dsx_connect.Jobs.Service.Lookup.{get_job_item_or_404}
use dsx_connect.Jobs.Service.Parent.{refresh_parent_job_state}

-- What the method returns; `ended` stands for a reading of the clock as `completed_at`.
pub data Derived : Type 0 where
  going : ItemState → Option Fields → Derived
  ended : ItemState → Option Fields → Derived
  kept : ItemState → Option Fields → Option ℕ → Derived

-- The ladder over the stages, once the new record stands in its place; the dianna stage never
-- changes the state of the item.
unfoldable pub derive_from : JobItemRecord → JobItemRecord → Derived
derive_from current staged =
    if is_running staged.scan_stage.state
    then going ItemState.scanning none
    else if is_failed staged.scan_stage.state
    then ended ItemState.failed staged.scan_stage.error
    else if not (is_completed staged.scan_stage.state)
    then kept current.state current.error current.completed_at
    else if is_running staged.policy_stage.state
    then going ItemState.scanned none
    else if is_failed staged.policy_stage.state
    then ended ItemState.failed staged.policy_stage.error
    else if is_running staged.remediation_stage.state
    then going ItemState.remediating none
    else if is_failed staged.remediation_stage.state
    then ended ItemState.failed staged.remediation_stage.error
    else if is_running staged.delivery_stage.state
    then going ItemState.delivering_result none
    else if is_failed staged.delivery_stage.state
    then ended ItemState.failed staged.delivery_stage.error
    else if is_pending staged.delivery_stage.state
    then (if is_pending staged.remediation_stage.state
        then going ItemState.scanned none
        else going ItemState.deliver_pending none)
    else if is_completed staged.delivery_stage.state || is_skipped staged.delivery_stage.state
    then ended ItemState.completed none
    else if (is_completed staged.remediation_stage.state
          || is_skipped staged.remediation_stage.state)
        && is_skipped staged.delivery_stage.state
    then ended ItemState.completed none
    else kept current.state none none

unfoldable pub derive_item_state : JobItemRecord → StageName → StageRecord → Derived
derive_item_state current StageName.dianna_stage stage_record =
    kept current.state current.error current.completed_at
derive_item_state current StageName.scan_stage stage_record =
    derive_from current (set_stage StageName.scan_stage stage_record current)
derive_item_state current StageName.policy_stage stage_record =
    derive_from current (set_stage StageName.policy_stage stage_record current)
derive_item_state current StageName.remediation_stage stage_record =
    derive_from current (set_stage StageName.remediation_stage stage_record current)
derive_item_state current StageName.delivery_stage stage_record =
    derive_from current (set_stage StageName.delivery_stage stage_record current)

-- The state, error and completion time that are written.
abbrev pub Outcome : Type 0
Outcome = ItemState × Option Fields × Option ℕ

abbrev read_derived : Env → Derived → M Outcome
read_derived env (going state error) = pure (state, error, none)
read_derived env (ended state error) = do now ← utcnow env; pure (state, error, some now)
read_derived env (kept state error completed_at) = pure (state, error, completed_at)

abbrev now_if : Env → Bool → M (Option ℕ)
now_if env true = do now ← utcnow env; pure (some now)
now_if env false = pure none

abbrev start_time : Env → StageState → Option ℕ → M (Option ℕ)
start_time env state (some t) = pure (some t)
start_time env state none = now_if env (is_running state)

-- The stage record of an update.
abbrev pub build_stage : StageUpdateRequest → Option ℕ → Option ℕ → StageRecord
build_stage payload started_at completed_at = record {
  state = to_stage_state payload.state;
  started_at = started_at;
  completed_at = completed_at;
  result = payload.result;
  metadata = payload.metadata;
  error = payload.error;
}

-- What `_update_job_item_stage_from_current` does when the stage is not already over.
unfoldable pub write_stage : Env → JobItemRecord → StageName → StageUpdateRequest → M JobItemRecord
write_stage env current stage_name payload = do
  let state = to_stage_state payload.state
  started_at ← start_time env state (get_stage stage_name current).started_at
  completed_at ← now_if env (is_terminal_stage state)
  let stage_record = build_stage payload started_at completed_at
  (item_state, item_error, item_completed_at) ←
      read_derived env (derive_item_state current stage_name stage_record)
  updated ←
      update_job_item_stage env current.job_item_id stage_name stage_record item_state item_error
        item_completed_at
  or_404 updated "job_item_not_found"

unfoldable pub update_stage_from_current :
    Env → JobItemRecord → StageName → StageUpdateRequest → Bool → M JobItemRecord
update_stage_from_current env current stage_name payload refresh_parent =
    if is_running (to_stage_state payload.state)
      && is_terminal_stage (get_stage stage_name current).state
    then pure current
    else do
      write_stage env current stage_name payload
      when refresh_parent (refresh_parent_job_state env current.job_id)
      refreshed ← get_job_item current.job_item_id
      or_500 refreshed "job_item_state_update_failed"

-- `_update_job_item_stage`, which the five `update_…_stage` methods call with their stage name.
unfoldable pub update_stage : Env → String → StageName → StageUpdateRequest → Bool → M JobItemRecord
update_stage env job_item_id stage_name payload refresh_parent = do
  current ← get_job_item_or_404 job_item_id
  update_stage_from_current env current stage_name payload refresh_parent
