-- ===== src/Jobs/Examples/Items.antt =====
-- The items of the job: stage reports, requests and the completion of scans.
use dsx_connect.Prelude.{◌≡◌, ◌↔◌, refl, true, false, none, some, [], ◌∷◌}
use dsx_connect.Prelude.Value.{get_field}
use dsx_connect.Prelude.Dict.{get}
use dsx_connect.Jobs.Models.{ItemState, StageState, StageName}
use dsx_connect.Jobs.World.{raised, http}
use dsx_connect.Jobs.Repository.Items.Over.{stage_over}
use dsx_connect.Jobs.Service.Stages.{update_stage, derive_from, ended}
use dsx_connect.Jobs.Service.Stages.Returns.{returned, stage_state, update_stage_returns}
use dsx_connect.Jobs.Service.Stages.Over.{update_stage-stage_over}
use dsx_connect.Jobs.Service.Stages.Derive.{IsQuiet, IsDelivered, derive_completes_iff}
use dsx_connect.Jobs.Service.ScanOnly.{complete_scan_only, complete_scan_only_bulk}
use dsx_connect.Jobs.Service.ScanOnly.Bulk.{unticked, bulk_all_or_nothing, unstarted, bulk_of_one}
use dsx_connect.Jobs.Examples.Store.{env, item, done_item, store, report, started}

update_stage-stage_over_example :
    stage_over StageName.scan_stage
      (get (update_stage env "d" StageName.scan_stage started true store).1.job_items "d")
    ≡ true
unfolding get
update_stage-stage_over_example =
    update_stage-stage_over env "d" "d" StageName.scan_stage StageName.scan_stage started true store
      refl

derive_completes_iff_example : (derive_from item done_item ≡ ended ItemState.completed none) ↔ (
    (done_item.scan_stage.state ≡ StageState.completed)
    × IsQuiet done_item.policy_stage
    × IsQuiet done_item.remediation_stage
    × IsDelivered done_item.delivery_stage)
derive_completes_iff_example = derive_completes_iff item done_item

bulk_all_or_nothing_example :
    ((complete_scan_only_bulk env (("j", "i", report) ∷ ("j", "d", started) ∷ []) true store).0
      ≡ raised (http 409 "scan_only_requires_completed_scan"))
    × (unticked
          (complete_scan_only_bulk env (("j", "i", report) ∷ ("j", "d", started) ∷ []) true store).1
        ≡ unticked store)
unfolding get_field
bulk_all_or_nothing_example =
    bulk_all_or_nothing env (("j", "i", report) ∷ ("j", "d", started) ∷ []) true store refl

bulk_of_one_example :
    unstarted
      (get (complete_scan_only_bulk env (("j", "i", report) ∷ []) false store).1.job_items "i")
    ≡ unstarted (get (complete_scan_only env "i" report store).1.job_items "i")
unfolding get
bulk_of_one_example = bulk_of_one env "j" "i" item report store refl refl refl

update_stage_returns_example :
    (returned (update_stage env "i" StageName.scan_stage started true store).0
      ≡ get (update_stage env "i" StageName.scan_stage started true store).1.job_items "i")
    × (stage_state StageName.scan_stage
          (get (update_stage env "i" StageName.scan_stage started true store).1.job_items "i")
        ≡ some StageState.running)
unfolding get
update_stage_returns_example =
    update_stage_returns env item StageName.scan_stage started true store refl
