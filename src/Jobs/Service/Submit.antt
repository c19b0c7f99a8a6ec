-- ===== src/Jobs/Service/Submit.antt =====
-- dsx_connect_ng/dsx_connect_ng/jobs/service.py: `submit_job`.
pub mod Twice
use dsx_connect.Prelude.{
  ℕ, String, Bool, true, false, Option, none, some, if◌then◌else◌, str_eq, not,
}
use dsx_connect.Prelude.Value.{Fields, Value, no_fields, field, num, null, obj, merge}
use dsx_connect.Jobs.Models.{JobState, JobRecord, JobCreate, Envelope, domain, DomainJobEnvelope}
use dsx_connect.Jobs.World.{
  Env, M, http, raise, ◌>>=◌, ◌>>◌, pure, or_404, or_500, ControlPlane, raise_if, utcnow,
}
use dsx_connect.Jobs.Repository.JobTable.{get_job, get_job_by_idempotency_key, create_job, given_id}
use dsx_connect.Jobs.Repository.Outbox.{create_outbox_record}
use dsx_connect.Jobs.Service.Publish.{publish_outbox_record}

pub record JobSubmitRequest : Type 0 where
  pub job_id : Option String
  pub job_type : String
  pub integration_id : Option String
  pub scope_id : Option String
  pub object_identity : Option String
  pub idempotency_key : Option String
  pub payload : Fields

abbrev check_integration : ControlPlane → Option String → M (Unit {0})
check_integration cp none = pure tt
check_integration cp (some i) = do or_404 (cp.integration i) "integration_not_found"; pure tt

abbrev scope_mismatch : String → Option String → Bool
scope_mismatch owner none = false
scope_mismatch owner (some i) = not (str_eq owner i)

abbrev check_scope : ControlPlane → Option String → Option String → M (Unit {0})
check_scope cp integration_id none = pure tt
check_scope cp integration_id (some s) = do
  scope ← or_404 (cp.scope s) "scope_not_found"
  raise_if (scope_mismatch scope.integration_id integration_id) 409 "scope_integration_mismatch"

-- The detail of the 409 is the dict whose `code` stands here.
unfoldable pub validate_control_plane_references :
    Env → Option String → Option String → M (Unit {0})
validate_control_plane_references env integration_id scope_id = elim env.control_plane [
  | none ↦ pure tt
  | some cp ↦ do check_integration cp integration_id; check_scope cp integration_id scope_id
]

abbrev pub runtime_snapshot : Env → Fields
runtime_snapshot env =
    let replicas : Value = elim env.scan_worker_replicas [ none ↦ null | some n ↦ num n ] in
    field "scanWorkerReplicas" replicas no_fields

-- `created.as_envelope(state_override="queued")`
abbrev pub as_envelope : JobRecord → JobState → DomainJobEnvelope
as_envelope job state = record {
  job_id = job.job_id;
  job_type = job.job_type;
  state = state;
  integration_id = job.integration_id;
  scope_id = job.scope_id;
  object_identity = job.object_identity;
  idempotency_key = job.idempotency_key;
  job_item_id = none;
  payload = job.payload;
  created_at = job.created_at;
}

-- `if payload.idempotency_key: existing = …`
abbrev pub find_existing : Option String → M (Option JobRecord)
find_existing none = pure none
find_existing (some key) = get_job_by_idempotency_key key

abbrev pub new_job : Env → JobSubmitRequest → JobCreate
new_job env p = record {
  job_id = p.job_id;
  job_type = p.job_type;
  state = JobState.accepted;
  integration_id = p.integration_id;
  scope_id = p.scope_id;
  object_identity = p.object_identity;
  idempotency_key = p.idempotency_key;
  payload =
      merge p.payload (field "dsxConnectRuntimeSnapshot" (obj (runtime_snapshot env)) no_fields);
  error = none;
}

-- The creation of the job and of its message, which is published at once.
abbrev pub submit_valid : Env → JobSubmitRequest → M JobRecord
submit_valid env p = do
  created ← create_job env (new_job env p)
  outbox ←
      create_outbox_record env created created.job_type
        (domain (as_envelope created JobState.queued))
  publish_outbox_record env outbox true
  found ← get_job created.job_id
  or_500 found "job_state_update_failed"

-- The part of the method for a request that is not a repeat.
unfoldable pub submit_new : Env → JobSubmitRequest → M JobRecord
submit_new env p = do
  validate_control_plane_references env p.integration_id p.scope_id
  submit_valid env p

unfoldable pub submit_job : Env → JobSubmitRequest → M JobRecord
submit_job env p = do
  existing ← find_existing (given_id p.idempotency_key)
  elim existing [ some row ↦ pure row | none ↦ submit_new env p ]
