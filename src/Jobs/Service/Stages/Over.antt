-- ===== src/Jobs/Service/Stages/Over.antt =====
-- A stage that is over stays over under the stage updates of the service, also when the caller's
-- copy of the item is stale.
use dsx_connect.Prelude.{String, ◌≡◌, Bool, true, false, arith}
use dsx_connect.Prelude.Dict.{get}
use dsx_connect.Jobs.Models.{
  StageName, StageUpdate, StageUpdateRequest, JobItemRecord, is_pending, to_stage_state,
}
use dsx_connect.Jobs.World.{World, Env}
use dsx_connect.Jobs.World.Keeps.{Keeps, keeps_rules}
use dsx_connect.Jobs.Repository.Items.{get_job_item}
use dsx_connect.Jobs.Repository.Items.Over.{stage_over, stage_over-update_job_item_stage}
use dsx_connect.Jobs.Service.Lookup.{get_job_item_or_404}
use dsx_connect.Jobs.Service.Parent.{refresh_parent_job_state}
use dsx_connect.Jobs.Service.Parent.Frame.{refresh-JobsOnly}
use dsx_connect.Jobs.Service.Stages.{write_stage, update_stage_from_current, update_stage}

pending-to_stage_state : (s : StageUpdate) → is_pending (to_stage_state s) ≡ false
pending-to_stage_state s = ground arith

module _ (env : Env) (j : String) (n : StageName) where
  abbrev Over : World → Type 0
  Over w = stage_over n (get w.job_items j) ≡ true

  write_stage-Over :
      (current : JobItemRecord) (name : StageName) (payload : StageUpdateRequest)
      → Keeps Over (write_stage env current name payload)
  unfolding write_stage
  write_stage-Over current name payload = record {
    at = λ w h. grind (arith, stage_over-update_job_item_stage, pending-to_stage_state);
  }

  refresh-Over : (job_id : String) → Keeps Over (refresh_parent_job_state env job_id)
  refresh-Over job_id = record { at = λ w h. grind (arith, refresh-JobsOnly) }

  pub update_stage_from_current-Over :
      (current : JobItemRecord) (name : StageName) (payload : StageUpdateRequest) (refresh : Bool)
      → Keeps Over (update_stage_from_current env current name payload refresh)
  unfolding update_stage_from_current get_job_item
  update_stage_from_current-Over current name payload refresh =
      search (keeps_rules, write_stage-Over, refresh-Over)

  pub update_stage-Over :
      (id : String) (name : StageName) (payload : StageUpdateRequest) (refresh : Bool)
      → Keeps Over (update_stage env id name payload refresh)
  unfolding update_stage get_job_item_or_404 get_job_item
  update_stage-Over id name payload refresh = search (keeps_rules, update_stage_from_current-Over)

-- A stage of an item that is completed, failed or skipped stays one of the three under every stage
-- update of the service, whatever the item and the stage it is for, whether it returns or raises.
pub update_stage-stage_over :
    (env : Env) (j id : String) (n name : StageName) (payload : StageUpdateRequest) (refresh : Bool)
    (w : World)
    → stage_over n (get w.job_items j) ≡ true
    → stage_over n (get (update_stage env id name payload refresh w).1.job_items j) ≡ true
update_stage-stage_over env j id n name payload refresh w h =
    (update_stage-Over env j n id name payload refresh).at w h
