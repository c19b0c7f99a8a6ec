-- ===== src/Jobs/Examples/Store.antt =====
-- The store and the environment of the examples.
use dsx_connect.Prelude.{false, none, some, [], ◌∷◌}
use dsx_connect.Prelude.Value.{no_fields, field, str, null}
use dsx_connect.Jobs.Models.{
  JobState, ItemState, StageState, PublishState, MessageType, MessageEnvelope, JobRecord,
  JobItemRecord, StageRecord, OutboxRecord, message, domain, default_content_source, new_stage,
  StageUpdate, StageUpdateRequest,
}
use dsx_connect.Jobs.World.{World, Env, Codec, memory_publish}

abbrev pub codec : Codec
codec = record {
  dump_source = λ s. null;
  dump_scan_result = λ f. some null;
  read_handoff = λ f. none;
  read_decision = λ f. none;
}

abbrev pub env : Env
env = record {
  clock = λ n. n;
  uuid = λ n. "fresh";
  publish = memory_publish;
  control_plane = none;
  codec = codec;
  scan_worker_replicas = none;
}

-- An environment whose bus refuses every message.
abbrev pub broken : Env
broken = record env { publish = λ e w. (some "no route", w) }

abbrev pub job : JobRecord
job = record {
  job_id = "j";
  job_type = "scan.batch";
  state = JobState.queued;
  integration_id = none;
  scope_id = none;
  object_identity = none;
  idempotency_key = some "key";
  payload = no_fields;
  error = none;
  created_at = 0;
  updated_at = 0;
  completed_at = none;
}

abbrev pub other_job : JobRecord
other_job = record job { job_id = "k"; idempotency_key = none }

abbrev pub item : JobItemRecord
item = record {
  job_item_id = "i";
  job_id = "j";
  item_index = 0;
  object_identity = "/share/a";
  state = ItemState.queued;
  payload = no_fields;
  content_source = default_content_source;
  delivery_requirements = record { wait_for_dianna = false };
  error = none;
  scan_stage = new_stage;
  policy_stage = new_stage;
  remediation_stage = new_stage;
  delivery_stage = new_stage;
  dianna_stage = new_stage;
  created_at = 0;
  updated_at = 0;
  completed_at = none;
}

abbrev pub scanned_stage : StageRecord
scanned_stage = record new_stage { state = StageState.completed; completed_at = some 3 }

abbrev pub done_item : JobItemRecord
done_item = record item {
  job_item_id = "d";
  item_index = 1;
  state = ItemState.completed;
  scan_stage = scanned_stage;
  delivery_stage = record new_stage { state = StageState.skipped };
}

-- The scan request of the queued item.
abbrev pub scan_request : MessageEnvelope
scan_request = record {
  message_type = MessageType.scan_item_requested;
  job_id = "j";
  job_item_id = "i";
  integration_id = none;
  scope_id = none;
  object_identity = "/share/a";
  idempotency_key = none;
  emitted_at = 0;
  payload = no_fields;
}

abbrev pub row : OutboxRecord
row = record {
  outbox_id = "o";
  job_id = "j";
  topic = "scan.requested";
  payload = message scan_request;
  publish_state = PublishState.pending;
  publish_attempts = 2;
  last_error = none;
  created_at = 0;
  updated_at = 0;
  published_at = none;
}

-- A message of the whole job.
abbrev pub job_row : OutboxRecord
job_row = record row {
  outbox_id = "p";
  payload = domain (record {
    job_id = "j";
    job_type = "scan.batch";
    state = JobState.queued;
    integration_id = none;
    scope_id = none;
    object_identity = none;
    idempotency_key = none;
    job_item_id = none;
    payload = no_fields;
    created_at = 0;
  });
}

abbrev pub store : World
store = record {
  jobs = ("j", job) ∷ ("k", other_job) ∷ [];
  job_items = ("i", item) ∷ ("d", done_item) ∷ [];
  outbox = ("o", row) ∷ ("p", job_row) ∷ [];
  scan_leases = [];
  published = [];
  ticks = 0;
  uuids = 0;
}

-- The report of a completed scan.
abbrev pub report : StageUpdateRequest
report = record {
  state = StageUpdate.completed;
  result = some (field "verdict" (str "benign") no_fields);
  metadata = none;
  error = none;
}

-- The report of a scan that starts.
abbrev pub started : StageUpdateRequest
started = record report { state = StageUpdate.running; result = none }
