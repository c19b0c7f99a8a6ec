-- ===== src/Jobs/Service/Envelopes.antt =====
-- dsx_connect_ng/dsx_connect_ng/jobs/service.py and jobs/contracts.py: the messages that the service builds.
use dsx_connect.Prelude.{String, Bool, Option, none, some, if◌then◌else◌}
use dsx_connect.Prelude.Value.{
  Fields, Value, no_fields, field, str, obj, merge, set_default, or_empty, has_field, get_field,
}
use dsx_connect.Jobs.Models.{JobRecord, JobItemRecord, MessageType, Envelope, message}
use dsx_connect.Jobs.Policy.{
  ResultType, scan_result, remediation_result, dianna_result, workflow_summary,
}
use dsx_connect.Jobs.World.{
  Env, M, ◌>>=◌, pure, utcnow, or_404, or_invalid, raise, invalid, Integration, Scope, ControlPlane,
}
use dsx_connect.Jobs.Repository.JobTable.{given_id}

-- The four literals of `result_type`.
abbrev pub result_type_text : ResultType → String
result_type_text scan_result = "scan_result"
result_type_text remediation_result = "remediation_result"
result_type_text dianna_result = "dianna_result"
result_type_text workflow_summary = "workflow_summary"

-- `self.control_plane.get_…_or_404(id) if id else None`
abbrev find_integration : Option ControlPlane → Option String → M (Option Integration)
find_integration none id = pure none
find_integration (some cp) none = pure none
find_integration (some cp) (some id) = do
  row ← or_404 (cp.integration id) "integration_not_found"
  pure (some row)

abbrev find_scope : Option ControlPlane → Option String → M (Option Scope)
find_scope none id = pure none
find_scope (some cp) none = pure none
find_scope (some cp) (some id) = do row ← or_404 (cp.scope id) "scope_not_found"; pure (some row)

abbrev integration_fields : Option Integration → Fields
integration_fields none = no_fields
integration_fields (some i) =
    field "integration_id" (str i.integration_id)
      (field "platform" (str i.platform) (field "platform_key" (str i.platform_key) no_fields))

abbrev scope_fields : Option Scope → Fields
scope_fields none = no_fields
scope_fields (some s) = field "scope_id" (str s.scope_id) (
    field "scope_type" (str s.scope_type) (
      field "scope_mode" (str s.mode) (
        field "resource_selector" (str s.resource_selector)
          (field "normalized_selector" (str s.normalized_selector) no_fields))))

-- The two `setdefault` pairs of `_build_scan_item_requested`.
abbrev with_integration : Option Integration → Fields → Fields
with_integration none options = options
with_integration (some i) options =
    set_default (set_default options "integrationConfig" (obj i.config)) "integrationMetadata" (
      obj (
        field "integration_id" (str i.integration_id) (
          field "display_name" (str i.display_name) (
            field "platform" (str i.platform)
              (field "platform_key" (str i.platform_key) no_fields)))))

abbrev with_scope : Option Scope → Fields → Fields
with_scope none options = options
with_scope (some s) options =
    set_default (set_default options "scopePolicy" (obj s.post_scan_policy)) "scopeMetadata" (
      obj (
        field "scope_id" (str s.scope_id) (
          field "display_name" (str s.display_name) (
            field "scope_type" (str s.scope_type) (
              field "scope_mode" (str s.mode) (
                field "resource_selector" (str s.resource_selector)
                  (field "normalized_selector" (str s.normalized_selector) no_fields)))))))

-- The envelope of a message about an item; `emitted_at` is a reading of the clock.
abbrev pub envelope_of :
    Env → MessageType → JobRecord → JobItemRecord → Option String → Fields → M Envelope
envelope_of env message_type job job_item idempotency_key payload = do
  emitted_at ← utcnow env
  pure (
      message (record {
        message_type = message_type;
        job_id = job.job_id;
        job_item_id = job_item.job_item_id;
        integration_id = job.integration_id;
        scope_id = job.scope_id;
        object_identity = job_item.object_identity;
        idempotency_key = idempotency_key;
        emitted_at = emitted_at;
        payload = payload;
      }))

unfoldable pub build_scan_item_requested : Env → JobRecord → JobItemRecord → M Envelope
build_scan_item_requested env job job_item = do
  integration ← find_integration env.control_plane (given_id job.integration_id)
  scope ← find_scope env.control_plane (given_id job.scope_id)
  let scan_options =
      with_scope scope (with_integration integration (merge job.payload job_item.payload))
  envelope_of env MessageType.scan_item_requested job job_item job.idempotency_key (
      field "content_source" (env.codec.dump_source job_item.content_source) (
        field "read_hint" (obj (field "objectIdentity" (str job_item.object_identity) no_fields))
          (field "scan_options" (obj scan_options) no_fields)))

-- `job_item.scan_stage.result or {}`, as the `ScanResult` that the message carries.
abbrev scan_result_value : Env → JobItemRecord → M Value
scan_result_value env job_item =
    or_invalid (env.codec.dump_scan_result (or_empty job_item.scan_stage.result))

-- `_build_policy_handoff_context`
abbrev handoff_context : Env → Option Integration → Option Scope → Fields × Fields
handoff_context env integration scope = elim env.control_plane [
  | none ↦ (no_fields, no_fields)
  | some cp ↦
      let config : Fields = elim integration [ none ↦ no_fields | some i ↦ i.config ] in
      let policy : Fields = elim scope [ none ↦ no_fields | some s ↦ s.post_scan_policy ] in
      (
        field "integration_config" (obj config) (
            field "scope_policy" (obj policy)
              (field "resolved_policy" (cp.resolve_policy config policy) no_fields)),
        field "integration" (obj (integration_fields integration))
            (field "scope" (obj (scope_fields scope)) no_fields),
      )
]

unfoldable pub build_policy_evaluation_requested : Env → JobRecord → JobItemRecord → M Envelope
build_policy_evaluation_requested env job job_item = do
  integration ← find_integration env.control_plane (given_id job.integration_id)
  scope ← find_scope env.control_plane (given_id job.scope_id)
  result ← scan_result_value env job_item
  let context = handoff_context env integration scope
  envelope_of env MessageType.policy_evaluation_requested job job_item job.idempotency_key (
      field "scan_result" result (
        field "item_payload" (obj job_item.payload) (
          field "policy_context" (obj context.0)
            (field "item_metadata" (obj context.1) no_fields))))

pub record DiannaAnalysisRequest : Type 0 where
  pub reason : String
  pub wait_for_delivery : Bool
  pub payload : Fields

unfoldable pub build_dianna_analysis_requested :
    Env → JobRecord → JobItemRecord → DiannaAnalysisRequest → M Envelope
build_dianna_analysis_requested env job job_item payload = do
  result ← scan_result_value env job_item
  envelope_of env MessageType.dianna_analysis_requested job job_item job.idempotency_key (
      field "content_source" (env.codec.dump_source job_item.content_source) (
        field "request_reason" (str payload.reason)
          (field "scan_result" result (field "request_options" (obj payload.payload) no_fields))))

-- The `before` validators: a dict that holds the field is read as the nested request.
abbrev dict_value : Value → M Fields
dict_value (obj d) = pure d
dict_value _ = raise invalid

abbrev coerced : String → Fields → M Fields
coerced key d = if has_field d key then dict_value (get_field d key) else pure d

unfoldable pub build_remediation_requested : Env → JobRecord → JobItemRecord → Fields → M Envelope
build_remediation_requested env job job_item remediation_plan = do
  result ← scan_result_value env job_item
  plan ← coerced "remediation_plan" remediation_plan
  envelope_of env MessageType.remediation_requested job job_item none (
      field "content_source" (env.codec.dump_source job_item.content_source)
        (field "scan_result" result (field "remediation_plan" (obj plan) no_fields)))

abbrev final_result : Env → JobItemRecord → Fields
final_result env job_item = field "objectIdentity" (str job_item.object_identity) (
    field "scan" (obj (or_empty job_item.scan_stage.result)) (
      field "scanMetadata" (obj (or_empty job_item.scan_stage.metadata)) (
        field "remediation" (obj (or_empty job_item.remediation_stage.result)) (
          field "dianna" (obj (or_empty job_item.dianna_stage.result))
            (field "contentSource" (env.codec.dump_source job_item.content_source) no_fields)))))

unfoldable pub build_result_sink_emit_requested :
    Env → JobRecord → JobItemRecord → Fields → ResultType → Fields → M Envelope
build_result_sink_emit_requested env job job_item delivery_target result_type result_payload = do
  target ← coerced "delivery_target" delivery_target
  envelope_of env MessageType.result_sink_emit_requested job job_item none (
      field "result_type" (str (result_type_text result_type)) (
        field "result_payload" (obj result_payload) (
          field "final_result" (obj (final_result env job_item))
            (field "delivery_target" (obj target) no_fields))))
