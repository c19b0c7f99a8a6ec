-- ===== src/Jobs/Repository/Items/Over.antt =====
-- A stage that is over stays over: no later write of the item puts it back.
use dsx_connect.Prelude.{ℕ, String, ◌≡◌, Bool, true, false, Option, none, some, arith, eq_iff}
use dsx_connect.Prelude.Value.{Fields}
use dsx_connect.Prelude.Dict.{get, get-put}
use dsx_connect.Jobs.Models.{
  ItemState, StageName, StageRecord, JobItemRecord, get_stage, is_terminal_stage, is_pending,
}
use dsx_connect.Jobs.World.{World, Env}
use dsx_connect.Jobs.Repository.Items.{update_job_item_stage}

-- The item is there, and its stage has ended.
abbrev pub stage_over : StageName → Option JobItemRecord → Bool
stage_over name none = false
stage_over name (some item) = is_terminal_stage (get_stage name item).state

-- The write of any stage, of any item, leaves every stage over that was over, if the new record is
-- not a pending one.
pub stage_over-update_job_item_stage :
    (env : Env) (id j : String) (name n : StageName) (r : StageRecord) (state : ItemState)
    (error : Option Fields) (t : Option ℕ) (w : World)
    → is_pending r.state ≡ false
    → stage_over n (get w.job_items j) ≡ true
    → stage_over n (get (update_job_item_stage env id name r state error t w).1.job_items j) ≡ true
unfolding update_job_item_stage
stage_over-update_job_item_stage env id j name n r state error t w p h =
    grind (arith, get-put, eq_iff)
