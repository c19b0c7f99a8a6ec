-- ===== src/Jobs/Service/Stages/Returns.antt =====
-- What a stage update returns, and the stage that it leaves.
use dsx_connect.Prelude.{
  String, ◌≡◌, Bool, true, false, Option, none, some, arith, eq_refl, if◌then◌else◌, ◌&&◌, is_some,
  Bool-cases, inl, inr,
}
use dsx_connect.Prelude.Dict.{get, get-put}
use dsx_connect.Jobs.Models.{
  StageName, StageState, StageRecord, StageUpdateRequest, JobItemRecord, is_running,
  is_terminal_stage, get_stage, set_stage, to_stage_state,
}
use dsx_connect.Jobs.World.{World, Env, Result, ok, raised, is_ok}
use dsx_connect.Jobs.Repository.JobTable.{get_job, update_job_state}
use dsx_connect.Jobs.Repository.Items.{update_job_item_stage, get_job_item}
use dsx_connect.Jobs.Service.Lookup.{get_job_item_or_404}
use dsx_connect.Jobs.Service.Parent.{refresh_parent_job_state}
use dsx_connect.Jobs.Service.Parent.Frame.{refresh-JobsOnly}
use dsx_connect.Jobs.Service.Stages.{write_stage, update_stage_from_current, update_stage}

abbrev pub returned : Result JobItemRecord → Option JobItemRecord
returned (ok row) = some row
returned (raised x) = none

-- The state of a stage of a stored item.
abbrev pub stage_state : StageName → Option JobItemRecord → Option StageState
stage_state n none = none
stage_state n (some item) = some (get_stage n item).state

-- A late report of a start is passed over; any other report decides the state of its stage.
abbrev pub reported : StageName → JobItemRecord → StageUpdateRequest → StageState
reported n item p =
    if is_running (to_stage_state p.state) && is_terminal_stage (get_stage n item).state
    then (get_stage n item).state
    else to_stage_state p.state

get-set_stage :
    (n : StageName) (r : StageRecord) (item : JobItemRecord) → get_stage n (set_stage n r item) ≡ r
get-set_stage n r item = ground arith

write_stage-state :
    (env : Env) (item : JobItemRecord) (n : StageName) (p : StageUpdateRequest) (w : World)
    → get w.job_items item.job_item_id ≡ some item
    → (is_running (to_stage_state p.state) && is_terminal_stage (get_stage n item).state) ≡ false
    → stage_state n (get (write_stage env item n p w).1.job_items item.job_item_id)
      ≡ some (to_stage_state p.state)
unfolding write_stage update_job_item_stage
write_stage-state env item n p w found fresh = grind (arith, get-put, eq_refl, get-set_stage)

write_stage-returned :
    (env : Env) (item : JobItemRecord) (n : StageName) (p : StageUpdateRequest) (w : World)
    → get w.job_items item.job_item_id ≡ some item
    → returned (write_stage env item n p w).0
      ≡ get (write_stage env item n p w).1.job_items item.job_item_id
unfolding write_stage update_job_item_stage
write_stage-returned env item n p w found = grind (arith, get-put, eq_refl)

write_stage_returns :
    (env : Env) (item : JobItemRecord) (n : StageName) (p : StageUpdateRequest) (w : World)
    → get w.job_items item.job_item_id ≡ some item
    → is_ok (write_stage env item n p w).0 ≡ true
unfolding write_stage update_job_item_stage
write_stage_returns env item n p w found = grind (arith, get-put, eq_refl)

pub refresh_returns :
    (env : Env) (j : String) (w : World) → is_ok (refresh_parent_job_state env j w).0 ≡ true
unfolding refresh_parent_job_state get_job update_job_state
refresh_returns env j w = ground arith

update_stage_found :
    (env : Env) (item : JobItemRecord) (n : StageName) (p : StageUpdateRequest) (refresh : Bool)
    (w : World)
    → get w.job_items item.job_item_id ≡ some item
    → update_stage env item.job_item_id n p refresh w
      ≡ update_stage_from_current env item n p refresh w
unfolding update_stage get_job_item_or_404 get_job_item
update_stage_found env item n p refresh w found = ground arith

-- After the write, the refresh and the read-back change no item.
from_current_written :
    (env : Env) (item : JobItemRecord) (n : StageName) (p : StageUpdateRequest) (refresh : Bool)
    (w : World)
    → (is_running (to_stage_state p.state) && is_terminal_stage (get_stage n item).state) ≡ false
    → is_ok (write_stage env item n p w).0 ≡ true
    → is_some (get (write_stage env item n p w).1.job_items item.job_item_id) ≡ true
    → (returned (update_stage_from_current env item n p refresh w).0
        ≡ get (write_stage env item n p w).1.job_items item.job_item_id)
      × ((update_stage_from_current env item n p refresh w).1.job_items
          ≡ (write_stage env item n p w).1.job_items)
unfolding update_stage_from_current get_job_item
from_current_written env item n p refresh w fresh wrote there = grind (
  arith,
  refresh_returns env item.job_id (write_stage env item n p w).1,
  refresh-JobsOnly env item.job_id (write_stage env item n p w).1,
)

from_current_late :
    (env : Env) (item : JobItemRecord) (n : StageName) (p : StageUpdateRequest) (refresh : Bool)
    (w : World)
    → (is_running (to_stage_state p.state) && is_terminal_stage (get_stage n item).state) ≡ true
    → update_stage_from_current env item n p refresh w ≡ (ok item, w)
unfolding update_stage_from_current
from_current_late env item n p refresh w late = ground arith

-- A stage update of a stored item always returns, and it returns the row that is then stored. Its
-- stage is in the reported state, unless a start is reported of a stage that has ended: such a
-- stage is left in its state.
pub update_stage_returns :
    (env : Env) (item : JobItemRecord) (n : StageName) (p : StageUpdateRequest) (refresh : Bool)
    (w : World)
    → get w.job_items item.job_item_id ≡ some item
    → (returned (update_stage env item.job_item_id n p refresh w).0
        ≡ get (update_stage env item.job_item_id n p refresh w).1.job_items item.job_item_id)
      × (stage_state n
            (get (update_stage env item.job_item_id n p refresh w).1.job_items item.job_item_id)
          ≡ some (reported n item p))
update_stage_returns env item n p refresh w found =
    elim (Bool-cases
      (is_running (to_stage_state p.state) && is_terminal_stage (get_stage n item).state)) [
        | inl late ↦ grind (
          arith,
          update_stage_found env item n p refresh w found,
          from_current_late env item n p refresh w late,
        )
        | inr fresh ↦ grind (
          arith,
          update_stage_found env item n p refresh w found,
          write_stage-state env item n p w found fresh,
          write_stage-returned env item n p w found,
          write_stage_returns env item n p w found,
          from_current_written env item n p refresh w fresh,
        )
      ]

-- The identifier that a stored row carries.
abbrev pub row_id : Option JobItemRecord → Option String
row_id none = none
row_id (some item) = some item.job_item_id

write_stage-row_id :
    (env : Env) (item : JobItemRecord) (n : StageName) (p : StageUpdateRequest) (w : World)
    → get w.job_items item.job_item_id ≡ some item
    → row_id (get (write_stage env item n p w).1.job_items item.job_item_id) ≡ some item.job_item_id
unfolding write_stage update_job_item_stage
write_stage-row_id env item n p w found = grind (arith, get-put, eq_refl)

-- A stage update leaves the row of the item under its identifier.
pub update_stage-row_id :
    (env : Env) (item : JobItemRecord) (n : StageName) (p : StageUpdateRequest) (refresh : Bool)
    (w : World)
    → get w.job_items item.job_item_id ≡ some item
    → row_id (get (update_stage env item.job_item_id n p refresh w).1.job_items item.job_item_id)
      ≡ some item.job_item_id
update_stage-row_id env item n p refresh w found =
    elim (Bool-cases
      (is_running (to_stage_state p.state) && is_terminal_stage (get_stage n item).state)) [
        | inl late ↦ grind (
          arith,
          update_stage_found env item n p refresh w found,
          from_current_late env item n p refresh w late,
        )
        | inr fresh ↦ grind (
          arith,
          update_stage_found env item n p refresh w found,
          write_stage-state env item n p w found fresh,
          write_stage-row_id env item n p w found,
          write_stage_returns env item n p w found,
          from_current_written env item n p refresh w fresh,
        )
      ]
