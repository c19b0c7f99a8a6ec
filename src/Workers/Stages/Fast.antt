-- ===== src/Workers/Stages/Fast.antt =====
-- workers/policy_worker.py and jobs/service.py: an item that is done with its policy evaluation.
use dsx_connect.Prelude.{
  String, ◌≡◌, Bool, true, false, Option, none, some, arith, subst, sym, ◌∙◌, ap, ◌&&◌, not,
  is_empty, eq_refl,
}
use dsx_connect.Prelude.Dict.{get, get-put}
use dsx_connect.Prelude.Value.{has_field, or_empty}
use dsx_connect.Jobs.Models.{
  MessageEnvelope, JobRecord, JobItemRecord, ItemState, StageName, StageState, StageUpdateRequest,
  is_completed,
}
use dsx_connect.Jobs.Policy.{PolicyHandoffDecision, scan_result}
use dsx_connect.Jobs.World.{World, Env, M, ok, is_ok}
use dsx_connect.Jobs.Repository.JobTable.{get_job}
use dsx_connect.Jobs.Repository.Items.{get_job_item, update_job_item_stages}
use dsx_connect.Jobs.Service.Lookup.{get_job_or_404, get_job_item_or_404}
use dsx_connect.Jobs.Service.Parent.Frame.{refresh-JobsOnly}
use dsx_connect.Jobs.Service.Stages.{update_stage}
use dsx_connect.Jobs.Service.Stages.Returns.{refresh_returns}
use dsx_connect.Jobs.Service.Stages.ItemsOnly.{
  update_stage-elsewhere, scan_part, update_stage-scan_part,
}
use dsx_connect.Jobs.Service.Requests.{extract_delivery_targets_from_handoff}
use dsx_connect.Jobs.Service.Choices.{scan_result_wanted}
use dsx_connect.Jobs.Service.Advance.{
  fast_complete, try_fast_complete_policy_stage, advance_policy_stage, nothing_left,
}
use dsx_connect.Workers.PolicyEngine.Handoff.{PolicyHandoffRequest}
use dsx_connect.Workers.Stages.Messages.{
  Codec, PolicyEvaluationRequested, policy_from_envelope, as_policy_handoff_request,
}
use dsx_connect.Workers.Stages.Process.{process_policy_message, running_update, completed_update}
use dsx_connect.Workers.Stages.Settled.{HasRow, Updated, updated}

-- The state of an item and of its later stages: policy, remediation, delivery, dianna.
abbrev pub shape :
    Option JobItemRecord → Option (ItemState × StageState × StageState × StageState × StageState)
shape none = none
shape (some i) = some (
  i.state, i.policy_stage.state, i.remediation_stage.state, i.delivery_stage.state,
  i.dianna_stage.state,
)

abbrev pub all_done : Option (ItemState × StageState × StageState × StageState × StageState)
all_done = some (
  ItemState.completed, StageState.completed, StageState.skipped, StageState.skipped,
  StageState.skipped,
)

-- The scan result of the item is not for a target.
abbrev pub keeps_result : PolicyHandoffDecision → JobItemRecord → Bool
keeps_result decision row =
    scan_result_wanted decision (or_empty row.scan_stage.result)
    && not (is_empty (extract_delivery_targets_from_handoff decision scan_result))

fast_complete-done :
    (env : Env) (decision : PolicyHandoffDecision) (payload : StageUpdateRequest)
    (row : JobItemRecord) (job : JobRecord) (v : World)
    → get v.jobs row.job_id ≡ some job
    → get v.job_items row.job_item_id ≡ some row
    → keeps_result decision row ≡ false
    → (is_ok (fast_complete env decision payload row v).0 ≡ true)
      × (shape (get (fast_complete env decision payload row v).1.job_items row.job_item_id)
          ≡ all_done)
unfolding fast_complete get_job_or_404 get_job update_job_item_stages
fast_complete-done env decision payload row job v hj hi hk =
    grind (arith, refresh_returns, refresh-JobsOnly, get-put, eq_refl)

-- The decision as it is written for the service to read: it is read back, and has the new shape.
pub record IsReadBack (env : Env) (codec : Codec) (decision : PolicyHandoffDecision) : Type 0 where
  pub has_shape : has_field (codec.dump_handoff decision) "policy_stage_result" ≡ true
  pub read_back : env.codec.read_handoff (codec.dump_handoff decision) ≡ some decision

advance-done :
    (env : Env) (codec : Codec) (decision : PolicyHandoffDecision) (row : JobItemRecord)
    (job : JobRecord) (v : World)
    → IsReadBack env codec decision
    → nothing_left decision ≡ true
    → get v.jobs row.job_id ≡ some job
    → get v.job_items row.job_item_id ≡ some row
    → is_completed row.scan_stage.state ≡ true
    → keeps_result decision row ≡ false
    → (is_ok
          (advance_policy_stage env row.job_item_id
            (completed_update (codec.dump_handoff decision))
            v).0
        ≡ true)
      × (shape (
            get
              (advance_policy_stage env row.job_item_id
                (completed_update (codec.dump_handoff decision))
                v).1.job_items
              row.job_item_id)
          ≡ all_done)
unfolding advance_policy_stage try_fast_complete_policy_stage get_job_item_or_404 get_job_item
advance-done env codec decision row job v b hn hj hi hs hk = ground (
  arith,
  b.has_shape,
  b.read_back,
  fast_complete-done env decision (completed_update (codec.dump_handoff decision)) row job v hj hi
      hk,
)

-- The item after the report that its policy evaluation has started.
record IsStarted (id : String) (row : JobItemRecord) (job : JobRecord) (v : World) : Type 0 where
  stays : HasRow id v
  same_scan : stays.row.scan_stage ≡ row.scan_stage
  has_job : get v.jobs stays.row.job_id ≡ some job

some_pair :
    {A B : Type 0} (a a' : A) (b b' : B)
    → ◌≡◌ {A = Option (A × B)} (some (a, b)) (some (a', b'))
    → (a ≡ a') × (b ≡ b')
some_pair a a' b b' e = (cc, cc)

started :
    (env : Env) (id : String) (job : JobRecord) (w : World) (h : HasRow id w)
    → get w.jobs h.row.job_id ≡ some job
    → IsStarted id h.row job (updated env id StageName.policy_stage running_update false w h).after
started env id job w h hj =
    let u : Updated env id StageName.policy_stage running_update false w =
      updated env id StageName.policy_stage running_update false w h in
    let there : World = (update_stage env id StageName.policy_stage running_update false w).1 in
    let same : there ≡ u.after = ap (λ r. r.1) u.runs in
    let parts : some (u.stays.row.scan_stage, u.stays.row.job_id)
        ≡ some (h.row.scan_stage, h.row.job_id) =
      ap scan_part (sym u.stays.found)
      ∙ ap (λ v. scan_part (get v.job_items id)) (sym same)
      ∙ update_stage-scan_part env id id running_update w
      ∙ ap scan_part h.found in
    let both : (u.stays.row.scan_stage ≡ h.row.scan_stage) × (u.stays.row.job_id ≡ h.row.job_id) =
      some_pair _ _ _ _ parts in
    let jobs : u.after.jobs ≡ w.jobs =
      ap (λ v. v.jobs) (sym same)
      ∙ ap (λ p. p.0) (update_stage-elsewhere env id StageName.policy_stage running_update w) in
    record {
      stays = u.stays;
      same_scan = both.0;
      has_job = ap (λ d. get d u.stays.row.job_id) jobs ∙ ap (λ k. get w.jobs k) both.1 ∙ hj;
    }

advance_started :
    (env : Env) (codec : Codec) (decision : PolicyHandoffDecision) (id : String)
    (row : JobItemRecord) (job : JobRecord) (v : World)
    → IsStarted id row job v
    → IsReadBack env codec decision
    → nothing_left decision ≡ true
    → is_completed row.scan_stage.state ≡ true
    → keeps_result decision row ≡ false
    → (is_ok (advance_policy_stage env id (completed_update (codec.dump_handoff decision)) v).0
        ≡ true)
      × (shape (
            get
              (advance_policy_stage env id
                (completed_update (codec.dump_handoff decision))
                v).1.job_items
              id)
          ≡ all_done)
advance_started env codec decision id row job v s b hn hs hk =
    subst
      (λ k.
        (is_ok (advance_policy_stage env k (completed_update (codec.dump_handoff decision)) v).0
          ≡ true)
        × (shape (
              get
                (advance_policy_stage env k (completed_update (codec.dump_handoff decision))
                  v).1.job_items
                k)
            ≡ all_done))
      s.stays.named
      (advance-done env codec decision s.stays.row job v b hn s.has_job
        (ap (λ k. get v.job_items k) s.stays.named ∙ s.stays.found)
        (ap (λ r. is_completed r.state) s.same_scan ∙ hs)
        (ap
            (λ r.
              scan_result_wanted decision (or_empty r.result)
              && not (is_empty (extract_delivery_targets_from_handoff decision scan_result)))
            s.same_scan
          ∙ hk))

-- The message that asks for the policy evaluation of a stored item whose scan is completed, of a
-- stored job, where the engine decides that nothing is left to do and that the scan result is for no
-- target: the handler returns, the item is completed, its policy stage is completed, and its
-- remediation, delivery and analysis are skipped. It is assumed that the engine leaves the store
-- alone, and that the decision is read back as it was written.
pub policy_message_completes :
    (env : Env) (codec : Codec) (evaluate : PolicyHandoffRequest → M PolicyHandoffDecision)
    (envelope : MessageEnvelope) (request : PolicyEvaluationRequested)
    (handoff : PolicyHandoffRequest) (decision : PolicyHandoffDecision) (job : JobRecord)
    (w : World) (h : HasRow envelope.job_item_id w)
    → policy_from_envelope codec envelope w ≡ (ok request, w)
    → ((v : World) → as_policy_handoff_request codec request v ≡ (ok handoff, v))
    → ((v : World) → evaluate handoff v ≡ (ok decision, v))
    → IsReadBack env codec decision
    → nothing_left decision ≡ true
    → get w.jobs h.row.job_id ≡ some job
    → is_completed h.row.scan_stage.state ≡ true
    → keeps_result decision h.row ≡ false
    → ((process_policy_message env codec evaluate envelope w).0 ≡ ok tt)
      × (shape (
            get
              (process_policy_message env codec evaluate envelope w).1.job_items
              envelope.job_item_id)
          ≡ all_done)
unfolding process_policy_message
policy_message_completes env codec evaluate envelope request handoff decision job w h read handed
      runs b hn hj hs hk =
    let id : String = envelope.job_item_id in
    let u : Updated env id StageName.policy_stage running_update false w =
      updated env id StageName.policy_stage running_update false w h in
    ground (
      arith,
      u.runs,
      handed u.after,
      runs u.after,
      advance_started env codec decision id h.row job u.after (started env id job w h hj) b hn hs
          hk,
    )
