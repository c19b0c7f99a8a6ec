-- ===== src/Workers/Stages/Settled.antt =====
-- workers/delivery_worker.py and its siblings: what a handled message leaves of its stage, and what a failing
-- executor leaves.
use dsx_connect.Prelude.{
  String, ◌≡◌, Bool, true, false, Option, none, some, arith, Option-cases, inl, inr, subst, sym,
  ◌∙◌, ap,
}
use dsx_connect.Prelude.Dict.{get}
use dsx_connect.Prelude.Value.{Fields}
use dsx_connect.Jobs.Models.{
  MessageEnvelope, JobItemRecord, StageName, StageState, StageUpdateRequest, is_terminal_stage,
  get_stage,
}
use dsx_connect.Jobs.World.{World, Env, M, Result, ok, raised, Raised}
use dsx_connect.Jobs.Repository.Items.{get_job_item}
use dsx_connect.Jobs.Service.Lookup.{get_job_item_or_404}
use dsx_connect.Jobs.Service.Stages.{update_stage}
use dsx_connect.Jobs.Service.Stages.ItemsOnly.{elsewhere, update_stage-elsewhere}
use dsx_connect.Jobs.Service.Stages.Returns.{
  stage_state, row_id, returned, reported, update_stage_returns, update_stage-row_id,
}
use dsx_connect.Jobs.Service.Advance.{advance_delivery_stage}
use dsx_connect.Workers.Remediation.Request.{RemediationRequested}
use dsx_connect.Workers.Remediation.Executor.{RemediationResult}
use dsx_connect.Workers.Stages.Messages.{
  Codec, ResultSinkEmitRequested, sink_from_envelope, remediation_from_envelope,
}
use dsx_connect.Workers.Stages.Process.{
  DeliveryResult, process_result_sink_message, process_remediation_message, running_update,
  completed_update, dump_delivery, is_summary,
}

-- The row of an item is stored under its identifier.
pub record HasRow (id : String) (w : World) : Type 0 where
  pub row : JobItemRecord
  pub found : get w.job_items id ≡ some row
  pub named : row.job_item_id ≡ id

HasRow-of : (id : String) (w : World) → row_id (get w.job_items id) ≡ some id → HasRow id w
HasRow-of id w h = elim (Option-cases (get w.job_items id)) [
  | inl e ↦ absurd (none_is_not_some id (ap row_id (sym e) ∙ h))
  | inr (row, e) ↦ record { row = row; found = e; named = same row id (ap row_id (sym e) ∙ h) }
]
  where
    none_is_not_some : (s : String) → ◌≡◌ {A = Option String} none (some s) → ⊥
    none_is_not_some s e = cc

    same : (row : JobItemRecord) (id : String) → row_id (some row) ≡ some id → row.job_item_id ≡ id
    same row id e = cc

-- What a stage update of a stored row comes to.
pub record Updated (env : Env) (id : String) (n : StageName) (p : StageUpdateRequest)
    (refresh : Bool) (w : World) : Type 0 where
  pub row : JobItemRecord
  pub after : World
  pub runs : update_stage env id n p refresh w ≡ (ok row, after)
  pub stays : HasRow id after

returned-ok : (r : Result JobItemRecord) (row : JobItemRecord) → returned r ≡ some row → r ≡ ok row
returned-ok (ok a) row e = cc
returned-ok (raised x) row e = cc

pub updated :
    (env : Env) (id : String) (n : StageName) (p : StageUpdateRequest) (refresh : Bool) (w : World)
    → HasRow id w
    → Updated env id n p refresh w
updated env id n p refresh w h =
    let found : get w.job_items h.row.job_item_id ≡ some h.row =
      ap (λ k. get w.job_items k) h.named ∙ h.found in
    let stays : HasRow id (update_stage env id n p refresh w).1 = HasRow-of id _ (
      subst (λ k. row_id (get (update_stage env k n p refresh w).1.job_items k) ≡ some k) h.named
        (update_stage-row_id env h.row n p refresh w found)) in
    let back : returned (update_stage env id n p refresh w).0
        ≡ get (update_stage env id n p refresh w).1.job_items id =
      subst
        (λ k.
          returned (update_stage env k n p refresh w).0
          ≡ get (update_stage env k n p refresh w).1.job_items k)
        h.named (update_stage_returns env h.row n p refresh w found).0 in
    record {
      row = stays.row;
      after = (update_stage env id n p refresh w).1;
      runs = λ i. (
        returned-ok (update_stage env id n p refresh w).0 stays.row (back ∙ stays.found) i,
        (update_stage env id n p refresh w).1,
      );
      stays = stays;
    }

-- An update to completed leaves the stage completed.
completed_after :
    (env : Env) (id : String) (n : StageName) (result : Fields) (refresh : Bool) (w : World)
    → HasRow id w
    → stage_state n (get (update_stage env id n (completed_update result) refresh w).1.job_items id)
      ≡ some StageState.completed
completed_after env id n result refresh w h =
    subst
      (λ k.
        stage_state n (get (update_stage env k n (completed_update result) refresh w).1.job_items k)
        ≡ some StageState.completed)
      h.named
      (update_stage_returns env h.row n (completed_update result) refresh w
        (ap (λ k. get w.job_items k) h.named ∙ h.found)).1

get_found :
    (id : String) (w : World) (row : JobItemRecord)
    → get w.job_items id ≡ some row
    → get_job_item_or_404 id w ≡ (ok row, w)
unfolding get_job_item_or_404 get_job_item
get_found id w row found = ground arith

-- The message of a workflow summary about a stored item, with an executor that returns and leaves
-- the store alone: the handler returns, and the delivery stage of the stored item is completed.
pub summary_completes_delivery :
    (env : Env) (execute : ResultSinkEmitRequested → M DeliveryResult) (envelope : MessageEnvelope)
    (request : ResultSinkEmitRequested) (result : DeliveryResult) (w : World)
    → sink_from_envelope envelope w ≡ (ok request, w)
    → is_summary request.result_type ≡ true
    → ((v : World) → execute request v ≡ (ok result, v))
    → HasRow request.envelope.job_item_id w
    → ((process_result_sink_message env execute envelope w).0 ≡ ok tt)
      × (stage_state StageName.delivery_stage (
            get
              (process_result_sink_message env execute envelope w).1.job_items
              request.envelope.job_item_id)
          ≡ some StageState.completed)
unfolding process_result_sink_message advance_delivery_stage
summary_completes_delivery env execute envelope request result w read summary runs h =
    let id : String = request.envelope.job_item_id in
    let u1 : Updated env id StageName.delivery_stage running_update false w =
      updated env id StageName.delivery_stage running_update false w h in
    let u2 : Updated env id StageName.delivery_stage (completed_update (dump_delivery result)) true
        u1.after =
      updated env id StageName.delivery_stage (completed_update (dump_delivery result)) true
        u1.after u1.stays in
    ground (
      arith,
      u1.runs,
      runs u1.after,
      u2.runs,
      get_found id u2.after u2.stays.row u2.stays.found,
      completed_after env id StageName.delivery_stage (dump_delivery result) true u1.after u1.stays,
    )

running_reported :
    (n : StageName) (row : JobItemRecord)
    → is_terminal_stage (get_stage n row).state ≡ false
    → some (reported n row running_update) ≡ some StageState.running
running_reported n row going = ground arith

-- A reported start of a stage that has not ended leaves it running.
running_after :
    (env : Env) (id : String) (n : StageName) (w : World) (h : HasRow id w)
    → is_terminal_stage (get_stage n h.row).state ≡ false
    → stage_state n (get (update_stage env id n running_update false w).1.job_items id)
      ≡ some StageState.running
running_after env id n w h going =
    subst
      (λ k.
        stage_state n (get (update_stage env k n running_update false w).1.job_items k)
        ≡ some StageState.running)
      h.named
      ((update_stage_returns env h.row n running_update false w
          (ap (λ k. get w.job_items k) h.named ∙ h.found)).1
        ∙ running_reported n h.row going)

-- A remediation message about a stored item whose remediation has not ended, with an executor that
-- raises: the handler raises the same, the remediation stage is left running, and no job, no outbox
-- row and no message is written.
pub failed_remediation_stays_running :
    (env : Env) (codec : Codec) (execute : RemediationRequested → M RemediationResult)
    (envelope : MessageEnvelope) (request : RemediationRequested) (x : Raised) (w : World)
    (h : HasRow request.job_item_id w)
    → remediation_from_envelope codec envelope w ≡ (ok request, w)
    → ((v : World) → execute request v ≡ (raised x, v))
    → is_terminal_stage h.row.remediation_stage.state ≡ false
    → ((process_remediation_message env codec execute envelope w).0 ≡ raised x)
      × (stage_state StageName.remediation_stage (
            get
              (process_remediation_message env codec execute envelope w).1.job_items
              request.job_item_id)
          ≡ some StageState.running)
      × (elsewhere (process_remediation_message env codec execute envelope w).1 ≡ elsewhere w)
unfolding process_remediation_message
failed_remediation_stays_running env codec execute envelope request x w h read runs going =
    let id : String = request.job_item_id in
    let u : Updated env id StageName.remediation_stage running_update false w =
      updated env id StageName.remediation_stage running_update false w h in
    ground (
      arith,
      u.runs,
      runs u.after,
      running_after env id StageName.remediation_stage w h going,
      update_stage-elsewhere env id StageName.remediation_stage running_update w,
    )
