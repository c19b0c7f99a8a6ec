-- ===== src/Jobs/Service/Stages/ItemsOnly.antt =====
-- What a stage update without a refresh of the parent leaves alone: everything but the item, and the scan
-- stage and the job of the item where the update is for its policy stage.
use dsx_connect.Prelude.{ℕ, String, ◌≡◌, refl, false, Option, none, some, List, arith, eq_iff}
use dsx_connect.Prelude.Dict.{Dict, get, get-put}
use dsx_connect.Prelude.Value.{Fields}
use dsx_connect.Jobs.Models.{
  ItemState, StageName, StageRecord, StageUpdateRequest, JobItemRecord, JobRecord, OutboxRecord,
  Envelope,
}
use dsx_connect.Jobs.World.{World, Env}
use dsx_connect.Jobs.World.Keeps.{Keeps, keeps_rules}
use dsx_connect.Jobs.Repository.Items.{get_job_item, update_job_item_stage}
use dsx_connect.Jobs.Service.Lookup.{get_job_item_or_404}
use dsx_connect.Jobs.Service.Stages.{write_stage, update_stage_from_current, update_stage}

-- The jobs, the outbox and what was published.
abbrev pub elsewhere : World → Dict JobRecord × Dict OutboxRecord × List Envelope
elsewhere w = (w.jobs, w.outbox, w.published)

module _ (env : Env) (v : World) where
  abbrev Elsewhere : World → Type 0
  Elsewhere w = elsewhere w ≡ elsewhere v

  item_stage :
      (id : String) (name : StageName) (r : StageRecord) (state : ItemState) (error : Option Fields)
      (t : Option ℕ) (w : World)
      → elsewhere (update_job_item_stage env id name r state error t w).1 ≡ elsewhere w
  unfolding update_job_item_stage
  item_stage id name r state error t w = ground arith

  write_stage-Elsewhere :
      (current : JobItemRecord) (name : StageName) (payload : StageUpdateRequest)
      → Keeps Elsewhere (write_stage env current name payload)
  unfolding write_stage
  write_stage-Elsewhere current name payload = record { at = λ w h. grind (arith, item_stage) }

  from_current-Elsewhere :
      (current : JobItemRecord) (name : StageName) (payload : StageUpdateRequest)
      → Keeps Elsewhere (update_stage_from_current env current name payload false)
  unfolding update_stage_from_current get_job_item
  from_current-Elsewhere current name payload = search (keeps_rules, write_stage-Elsewhere)

  update_stage-Elsewhere :
      (id : String) (name : StageName) (payload : StageUpdateRequest)
      → Keeps Elsewhere (update_stage env id name payload false)
  unfolding update_stage get_job_item_or_404 get_job_item
  update_stage-Elsewhere id name payload = search (keeps_rules, from_current-Elsewhere)

pub update_stage-elsewhere :
    (env : Env) (id : String) (name : StageName) (payload : StageUpdateRequest) (w : World)
    → elsewhere (update_stage env id name payload false w).1 ≡ elsewhere w
update_stage-elsewhere env id name payload w =
    (update_stage-Elsewhere env w id name payload).at w refl

-- The scan stage and the job of a stored item.
abbrev pub scan_part : Option JobItemRecord → Option (StageRecord × String)
scan_part none = none
scan_part (some item) = some (item.scan_stage, item.job_id)

module _ (env : Env) (j : String) (v : World) where
  abbrev SamePart : World → Type 0
  SamePart w = scan_part (get w.job_items j) ≡ scan_part (get v.job_items j)

  item_stage-part :
      (id : String) (r : StageRecord) (state : ItemState) (error : Option Fields) (t : Option ℕ)
      (w : World)
      → scan_part (
          get (update_job_item_stage env id StageName.policy_stage r state error t w).1.job_items j)
        ≡ scan_part (get w.job_items j)
  unfolding update_job_item_stage
  item_stage-part id r state error t w = grind (arith, get-put, eq_iff)

  write_stage-SamePart :
      (current : JobItemRecord) (payload : StageUpdateRequest)
      → Keeps SamePart (write_stage env current StageName.policy_stage payload)
  unfolding write_stage
  write_stage-SamePart current payload = record { at = λ w h. grind (arith, item_stage-part) }

  from_current-SamePart :
      (current : JobItemRecord) (payload : StageUpdateRequest)
      → Keeps SamePart (update_stage_from_current env current StageName.policy_stage payload false)
  unfolding update_stage_from_current get_job_item
  from_current-SamePart current payload = search (keeps_rules, write_stage-SamePart)

  update_stage-SamePart :
      (id : String) (payload : StageUpdateRequest)
      → Keeps SamePart (update_stage env id StageName.policy_stage payload false)
  unfolding update_stage get_job_item_or_404 get_job_item
  update_stage-SamePart id payload = search (keeps_rules, from_current-SamePart)

pub update_stage-scan_part :
    (env : Env) (id j : String) (payload : StageUpdateRequest) (w : World)
    → scan_part (get (update_stage env id StageName.policy_stage payload false w).1.job_items j)
      ≡ scan_part (get w.job_items j)
update_stage-scan_part env id j payload w = (update_stage-SamePart env j w id payload).at w refl
