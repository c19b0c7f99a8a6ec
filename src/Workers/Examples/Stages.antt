-- ===== src/Workers/Examples/Stages.antt =====
-- Messages about the stages of one stored item.
use dsx_connect.Prelude.{◌≡◌, refl, false, none, some, ◌∷◌, []}
use dsx_connect.Prelude.Dict.{get}
use dsx_connect.Prelude.Value.{no_fields, field, get_field, has_field, null}
use dsx_connect.Prelude.Text.{lower_strip}
use dsx_connect.Jobs.Models.{
  MessageEnvelope, MessageType, StageName, StageState, JobItemRecord, default_content_source,
}
use dsx_connect.Jobs.Policy.{workflow_summary}
use dsx_connect.Jobs.World.{World, Env, ok, raised, terminal_error}
use dsx_connect.Jobs.Service.Stages.Returns.{stage_state}
use dsx_connect.Jobs.Service.Stages.ItemsOnly.{elsewhere}
use dsx_connect.Jobs.Service.Choices.{scan_result_wanted}
use dsx_connect.Jobs.Service.Requests.{extract_delivery_targets_from_handoff}
use dsx_connect.Jobs.Service.Advance.{nothing_left}
use dsx_connect.Jobs.Examples.Store.{
  store, item, scanned_stage, job, codec as plain_codec, env as plain_env,
}
use dsx_connect.Workers.PolicyEngine.Handoff.{PolicyHandoffRequest}
use dsx_connect.Workers.PolicyEngine.Build.{
  handoff_decision, targets_from_policy_config, content_preservation_for_verdict,
}
use dsx_connect.Workers.Remediation.Request.{RemediationRequested}
use dsx_connect.Workers.Stages.Messages.{
  Codec, ResultSinkEmitRequested, PolicyEvaluationRequested, sink_from_envelope,
  remediation_from_envelope, policy_from_envelope, as_policy_handoff_request,
}
use dsx_connect.Workers.Stages.Process.{
  DeliveryResult, process_result_sink_message, process_remediation_message, process_policy_message,
}
use dsx_connect.Workers.Stages.Settled.{
  HasRow, summary_completes_delivery, failed_remediation_stays_running,
}
use dsx_connect.Workers.Stages.Fast.{IsReadBack, shape, all_done, policy_message_completes}
use dsx_connect.Workers.Examples.Policy.{decided, handoff_of}

abbrev codec : Codec
codec = record {
  read_scan_result = λ v. some (handoff_of "benign").scan_result;
  read_content_source = λ v. some default_content_source;
  read_delivery_requirements = λ v. some (record { wait_for_dianna = false });
  dump_handoff = λ d. field "policy_stage_result" null no_fields;
}

-- The only handoff decision that is ever read.
abbrev env : Env
env = record plain_env { codec = record plain_codec { read_handoff = λ f. some decided } }

abbrev envelope : MessageEnvelope
envelope = record {
  message_type = MessageType.result_sink_emit_requested;
  job_id = "j";
  job_item_id = "i";
  integration_id = none;
  scope_id = none;
  object_identity = "/share/a";
  idempotency_key = none;
  emitted_at = 0;
  payload = no_fields;
}

-- The item is stored, and its scan is completed.
abbrev scanned_item : JobItemRecord
scanned_item = record item { scan_stage = scanned_stage }

abbrev scanned : World
scanned = record store { job_items = ("i", scanned_item) ∷ [] }

unfoldable scanned_row : HasRow "i" scanned
unfolding get
scanned_row = record { row = scanned_item; found = refl; named = refl }

abbrev summary : ResultSinkEmitRequested
summary = record {
  envelope = envelope;
  result_type = workflow_summary;
  result_payload = no_fields;
  final_result = no_fields;
  delivery_target = no_fields;
}

abbrev delivered : DeliveryResult
delivered = record {
  destination = some "siem";
  outcome = "delivered";
  external_reference = none;
  details = no_fields;
}

summary_completes_delivery_example :
    ((process_result_sink_message env (λ r v. (ok delivered, v)) envelope scanned).0 ≡ ok tt)
    × (stage_state StageName.delivery_stage (
          get
            (process_result_sink_message env
              (λ r v. (ok delivered, v))
              envelope
              scanned).1.job_items
            "i")
        ≡ some StageState.completed)
unfolding sink_from_envelope get_field
summary_completes_delivery_example =
    summary_completes_delivery env (λ r v. (ok delivered, v)) envelope summary delivered scanned
      refl refl (λ v. refl) scanned_row

abbrev request : RemediationRequested
request = record {
  job_id = "j";
  job_item_id = "i";
  integration_id = none;
  scope_id = none;
  object_identity = "/share/a";
  content_source = default_content_source;
  scan_result = (handoff_of "benign").scan_result;
  remediation_plan = no_fields;
}

failed_remediation_stays_running_example :
    ((process_remediation_message env codec
        (λ r v. (raised (terminal_error "connector_action_not_supported"), v))
        envelope
        scanned).0
      ≡ raised (terminal_error "connector_action_not_supported"))
    × (stage_state StageName.remediation_stage (
          get
            (process_remediation_message env codec
              (λ r v. (raised (terminal_error "connector_action_not_supported"), v))
              envelope
              scanned).1.job_items
            "i")
        ≡ some StageState.running)
    × (elsewhere
          (process_remediation_message env codec
            (λ r v. (raised (terminal_error "connector_action_not_supported"), v))
            envelope
            scanned).1
        ≡ elsewhere scanned)
unfolding remediation_from_envelope get_field scanned_row
failed_remediation_stays_running_example =
    failed_remediation_stays_running env codec
      (λ r v. (raised (terminal_error "connector_action_not_supported"), v)) envelope request
      (terminal_error "connector_action_not_supported") scanned scanned_row refl (λ v. refl) refl

abbrev evaluation : PolicyEvaluationRequested
evaluation = record {
  envelope = envelope;
  scan_result = (handoff_of "benign").scan_result;
  item_payload = no_fields;
  policy_context = no_fields;
  item_metadata = no_fields;
}

abbrev handoff : PolicyHandoffRequest
handoff = record (handoff_of "benign") { integration_id = none; object_identity = "/share/a" }

decided-IsReadBack : IsReadBack env codec decided
unfolding has_field
decided-IsReadBack = record { has_shape = refl; read_back = refl }

policy_message_completes_example :
    ((process_policy_message env codec (λ h v. (ok decided, v)) envelope scanned).0 ≡ ok tt)
    × (shape (
          get
            (process_policy_message env codec (λ h v. (ok decided, v)) envelope scanned).1.job_items
            "i")
        ≡ all_done)
unfolding policy_from_envelope as_policy_handoff_request get_field get nothing_left handoff_decision
    targets_from_policy_config content_preservation_for_verdict
    extract_delivery_targets_from_handoff scan_result_wanted lower_strip scanned_row
policy_message_completes_example =
    policy_message_completes env codec (λ h v. (ok decided, v)) envelope evaluation handoff decided
      job scanned scanned_row refl (λ v. refl) (λ v. refl) decided-IsReadBack refl refl refl refl
