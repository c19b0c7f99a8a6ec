-- ===== src/Jobs/Models.antt =====
-- dsx_connect_ng/dsx_connect_ng/jobs/models.py and the envelopes of jobs/contracts.py: the records of
-- jobs, items and outbox rows. Times are microseconds. A literal type is an enumeration; `state` of
-- a job and `publish_state` of an outbox row are texts in the source, and the code writes no other
-- text than the ones listed here.
use dsx_connect.Prelude.{ℕ, String, Bool, true, false, Option, ◌==◌}
use dsx_connect.Prelude.Value.{Fields, no_fields, Value, null}

pub data JobState : Type 0 where
  accepted publish_pending queued running completed failed cancelled : JobState

pub data ItemState : Type 0 where
  accepted publish_pending queued scanning scanned remediating deliver_pending : ItemState
  delivering_result completed failed cancelled : ItemState

pub data StageState : Type 0 where
  pending running completed failed skipped : StageState

pub data StageName : Type 0 where
  scan_stage policy_stage remediation_stage delivery_stage dianna_stage : StageName

pub data ContentSourceMode : Type 0 where
  original quarantine cached none : ContentSourceMode

pub data PublishState : Type 0 where
  pending publishing published : PublishState

-- Equality tests between states go through a number for each.
abbrev pub job_state_code : JobState → ℕ
job_state_code JobState.accepted = 0
job_state_code JobState.publish_pending = 1
job_state_code JobState.queued = 2
job_state_code JobState.running = 3
job_state_code JobState.completed = 4
job_state_code JobState.failed = 5
job_state_code JobState.cancelled = 6

abbrev pub item_state_code : ItemState → ℕ
item_state_code ItemState.accepted = 0
item_state_code ItemState.publish_pending = 1
item_state_code ItemState.queued = 2
item_state_code ItemState.scanning = 3
item_state_code ItemState.scanned = 4
item_state_code ItemState.remediating = 5
item_state_code ItemState.deliver_pending = 6
item_state_code ItemState.delivering_result = 7
item_state_code ItemState.completed = 8
item_state_code ItemState.failed = 9
item_state_code ItemState.cancelled = 10

abbrev pub publish_state_code : PublishState → ℕ
publish_state_code PublishState.pending = 0
publish_state_code PublishState.publishing = 1
publish_state_code PublishState.published = 2

abbrev pub is_job_state : JobState → JobState → Bool
is_job_state a b = job_state_code a == job_state_code b

abbrev pub is_item_state : ItemState → ItemState → Bool
is_item_state a b = item_state_code a == item_state_code b

abbrev pub is_publish_state : PublishState → PublishState → Bool
is_publish_state a b = publish_state_code a == publish_state_code b

-- `state in {"completed", "failed", "skipped"}` for a stage
abbrev pub is_terminal_stage : StageState → Bool
is_terminal_stage StageState.completed = true
is_terminal_stage StageState.failed = true
is_terminal_stage StageState.skipped = true
is_terminal_stage _ = false

abbrev pub is_running : StageState → Bool
is_running StageState.running = true
is_running _ = false

abbrev pub is_pending : StageState → Bool
is_pending StageState.pending = true
is_pending _ = false

abbrev pub is_completed : StageState → Bool
is_completed StageState.completed = true
is_completed _ = false

abbrev pub is_failed : StageState → Bool
is_failed StageState.failed = true
is_failed _ = false

abbrev pub is_skipped : StageState → Bool
is_skipped StageState.skipped = true
is_skipped _ = false

-- `locator` is a text or `None`; `model_copy` writes it unchecked, so any value may stand there.
pub record ContentSource : Type 0 where
  pub mode : ContentSourceMode
  pub locator : Value
  pub details : Fields
  pub available_until : Option ℕ

abbrev pub default_content_source : ContentSource
default_content_source = record {
  mode = ContentSourceMode.original;
  locator = null;
  details = no_fields;
  available_until = Option.none;
}

-- `class DeliveryRequirements`
pub record DeliveryRequirements : Type 0 where
  pub wait_for_dianna : Bool

pub record StageRecord : Type 0 where
  pub state : StageState
  pub started_at : Option ℕ
  pub completed_at : Option ℕ
  pub result : Option Fields
  pub metadata : Option Fields
  pub error : Option Fields

abbrev pub new_stage : StageRecord
new_stage = record {
  state = StageState.pending;
  started_at = Option.none;
  completed_at = Option.none;
  result = Option.none;
  metadata = Option.none;
  error = Option.none;
}

pub record JobRecord : Type 0 where
  pub job_id : String
  pub job_type : String
  pub state : JobState
  pub integration_id : Option String
  pub scope_id : Option String
  pub object_identity : Option String
  pub idempotency_key : Option String
  pub payload : Fields
  pub error : Option Fields
  pub created_at : ℕ
  pub updated_at : ℕ
  pub completed_at : Option ℕ

pub record JobCreate : Type 0 where
  pub job_id : Option String
  pub job_type : String
  pub state : JobState
  pub integration_id : Option String
  pub scope_id : Option String
  pub object_identity : Option String
  pub idempotency_key : Option String
  pub payload : Fields
  pub error : Option Fields

pub record JobItemRecord : Type 0 where
  pub job_item_id : String
  pub job_id : String
  pub item_index : ℕ
  pub object_identity : String
  pub state : ItemState
  pub payload : Fields
  pub content_source : ContentSource
  pub delivery_requirements : DeliveryRequirements
  pub error : Option Fields
  pub scan_stage : StageRecord
  pub policy_stage : StageRecord
  pub remediation_stage : StageRecord
  pub delivery_stage : StageRecord
  pub dianna_stage : StageRecord
  pub created_at : ℕ
  pub updated_at : ℕ
  pub completed_at : Option ℕ

pub record JobItemCreate : Type 0 where
  pub job_item_id : Option String
  pub job_id : String
  pub item_index : ℕ
  pub object_identity : String
  pub state : ItemState
  pub payload : Fields
  pub content_source : ContentSource
  pub delivery_requirements : DeliveryRequirements
  pub error : Option Fields
  pub scan_stage : StageRecord
  pub policy_stage : StageRecord
  pub remediation_stage : StageRecord
  pub delivery_stage : StageRecord
  pub dianna_stage : StageRecord

-- The states that a stage update may ask for.
pub data StageUpdate : Type 0 where
  running completed failed skipped : StageUpdate

abbrev pub to_stage_state : StageUpdate → StageState
to_stage_state StageUpdate.running = StageState.running
to_stage_state StageUpdate.completed = StageState.completed
to_stage_state StageUpdate.failed = StageState.failed
to_stage_state StageUpdate.skipped = StageState.skipped

pub record StageUpdateRequest : Type 0 where
  pub state : StageUpdate
  pub result : Option Fields
  pub metadata : Option Fields
  pub error : Option Fields

pub record JobItemSummary : Type 0 where
  pub total : ℕ
  pub accepted : ℕ
  pub publish_pending : ℕ
  pub queued : ℕ
  pub scanning : ℕ
  pub scanned : ℕ
  pub remediating : ℕ
  pub deliver_pending : ℕ
  pub delivering_result : ℕ
  pub completed : ℕ
  pub failed : ℕ
  pub cancelled : ℕ

pub record BatchJobRecord : Type 0 where
  pub job : JobRecord
  pub item_summary : JobItemSummary

-- `getattr(item, stage_name)`
abbrev pub get_stage : StageName → JobItemRecord → StageRecord
get_stage StageName.scan_stage i = i.scan_stage
get_stage StageName.policy_stage i = i.policy_stage
get_stage StageName.remediation_stage i = i.remediation_stage
get_stage StageName.delivery_stage i = i.delivery_stage
get_stage StageName.dianna_stage i = i.dianna_stage

-- The copy of an item with one stage replaced.
abbrev pub set_stage : StageName → StageRecord → JobItemRecord → JobItemRecord
set_stage StageName.scan_stage r i = record i { scan_stage = r }
set_stage StageName.policy_stage r i = record i { policy_stage = r }
set_stage StageName.remediation_stage r i = record i { remediation_stage = r }
set_stage StageName.delivery_stage r i = record i { delivery_stage = r }
set_stage StageName.dianna_stage r i = record i { dianna_stage = r }

-- `MessageType`: the request messages that the service builds; the other literals are one.
pub data MessageType : Type 0 where
  scan_item_requested policy_evaluation_requested dianna_analysis_requested : MessageType
  remediation_requested result_sink_emit_requested result_delivery_requested : MessageType
  other_message : String → MessageType

pub record MessageEnvelope : Type 0 where
  pub message_type : MessageType
  pub job_id : String
  pub job_item_id : String
  pub integration_id : Option String
  pub scope_id : Option String
  pub object_identity : String
  pub idempotency_key : Option String
  pub emitted_at : ℕ
  pub payload : Fields

pub record DomainJobEnvelope : Type 0 where
  pub job_id : String
  pub job_type : String
  pub state : JobState
  pub integration_id : Option String
  pub scope_id : Option String
  pub object_identity : Option String
  pub idempotency_key : Option String
  pub job_item_id : Option String
  pub payload : Fields
  pub created_at : ℕ

-- What an outbox row carries: the dump of one of the two envelopes. Both directions of the dump are
-- pydantic's, so the row keeps the envelope.
pub data Envelope : Type 0 where
  message : MessageEnvelope → Envelope
  domain : DomainJobEnvelope → Envelope

pub record OutboxRecord : Type 0 where
  pub outbox_id : String
  pub job_id : String
  pub topic : String
  pub payload : Envelope
  pub publish_state : PublishState
  pub publish_attempts : ℕ
  pub last_error : Option Fields
  pub created_at : ℕ
  pub updated_at : ℕ
  pub published_at : Option ℕ
