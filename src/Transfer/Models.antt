-- ===== src/Transfer/Models.antt =====
-- dsx_transfer/dsx_transfer/models.py: items, decisions, outcomes, reports, checkpoints and audit
-- events.
use dsx_connect.Prelude.{
  ℕ, String, Bool, true, false, Option, none, some, List, ◌==◌, count, length,
}
use dsx_connect.Prelude.Value.{Fields}

pub data TransferVerdict : Type 0 where
  benign malicious suspicious unknown error : TransferVerdict

pub data TransferAction : Type 0 where
  allow block exclude quarantine manual_review error : TransferAction

pub data TransferItemState : Type 0 where
  planned allowed blocked excluded failed skipped : TransferItemState

abbrev verdict_code : TransferVerdict → ℕ
verdict_code TransferVerdict.benign = 0
verdict_code TransferVerdict.malicious = 1
verdict_code TransferVerdict.suspicious = 2
verdict_code TransferVerdict.unknown = 3
verdict_code TransferVerdict.error = 4

abbrev pub is_verdict : TransferVerdict → TransferVerdict → Bool
is_verdict a b = verdict_code a == verdict_code b

abbrev state_code : TransferItemState → ℕ
state_code TransferItemState.planned = 0
state_code TransferItemState.allowed = 1
state_code TransferItemState.blocked = 2
state_code TransferItemState.excluded = 3
state_code TransferItemState.failed = 4
state_code TransferItemState.skipped = 5

abbrev pub is_state : TransferItemState → TransferItemState → Bool
is_state a b = state_code a == state_code b

pub record TransferItem : Type 0 where
  pub source_uri : String
  pub destination_uri : String
  pub object_identity : String
  pub size_bytes : Option ℕ
  pub content_type : Option String
  pub metadata : Fields

pub record TransferPlan : Type 0 where
  pub transfer_id : String
  pub source_uri : String
  pub destination_uri : String
  pub items : List TransferItem
  pub policy_id : Option String
  pub created_at : ℕ
  pub metadata : Fields

pub record ScanDecision : Type 0 where
  pub verdict : TransferVerdict
  pub action : TransferAction
  pub file_type : Option String
  pub policy_id : Option String
  pub scan_guid : Option String
  pub reason : Option String
  pub details : Fields

abbrev pub is_allow : TransferAction → Bool
is_allow TransferAction.allow = true
is_allow _ = false

-- `ScanDecision.allowed`
abbrev pub decision_allowed : ScanDecision → Bool
decision_allowed d = is_allow d.action

pub record ScanObservation : Type 0 where
  pub verdict : TransferVerdict
  pub file_type : Option String
  pub scan_guid : Option String
  pub details : Fields

-- `{"type": type(exc).__name__, "message": str(exc)}`, and any exception that is caught
pub record TransferError : Type 0 where
  pub name : String
  pub message : String

pub record TransferItemOutcome : Type 0 where
  pub item : TransferItem
  pub state : TransferItemState
  pub decision : Option ScanDecision
  pub bytes_written : ℕ
  pub started_at : ℕ
  pub completed_at : ℕ
  pub error : Option TransferError

pub record TransferReport : Type 0 where
  pub transfer_id : String
  pub source_uri : String
  pub destination_uri : String
  pub policy_id : Option String
  pub outcomes : List TransferItemOutcome
  pub started_at : ℕ
  pub completed_at : ℕ

abbrev pub has_state : TransferItemState → TransferItemOutcome → Bool
has_state s o = is_state o.state s

-- The computed counters of a report.
abbrev pub planned_count : TransferReport → ℕ
planned_count r = length r.outcomes

abbrev pub allowed_count : TransferReport → ℕ
allowed_count r = count (has_state TransferItemState.allowed) r.outcomes

abbrev pub blocked_count : TransferReport → ℕ
blocked_count r = count (has_state TransferItemState.blocked) r.outcomes

abbrev pub failed_count : TransferReport → ℕ
failed_count r = count (has_state TransferItemState.failed) r.outcomes

abbrev pub skipped_count : TransferReport → ℕ
skipped_count r = count (has_state TransferItemState.skipped) r.outcomes

abbrev pub excluded_count : TransferReport → ℕ
excluded_count r = count (has_state TransferItemState.excluded) r.outcomes

pub record CheckpointRecord : Type 0 where
  pub transfer_id : String
  pub object_identity : String
  pub source_uri : String
  pub destination_uri : String
  pub state : TransferItemState
  pub size_bytes : Option ℕ
  pub metadata_fingerprint : Option String
  pub outcome : TransferItemOutcome
  pub updated_at : ℕ

pub record AuditEvent : Type 0 where
  pub transfer_id : String
  pub source_uri : String
  pub destination_uri : String
  pub object_identity : String
  pub state : TransferItemState
  pub verdict : Option TransferVerdict
  pub action : Option TransferAction
  pub file_type : Option String
  pub policy_id : Option String
  pub bytes_written : ℕ
  pub error : Option TransferError

-- `AuditEvent.from_outcome`; the time of the event and the fields of platforms, which it leaves empty,
-- are left out
unfoldable pub from_outcome : String → TransferItemOutcome → AuditEvent
from_outcome transfer_id o = record {
  transfer_id = transfer_id;
  source_uri = o.item.source_uri;
  destination_uri = o.item.destination_uri;
  object_identity = o.item.object_identity;
  state = o.state;
  verdict = elim o.decision [ none ↦ none | some d ↦ some d.verdict ];
  action = elim o.decision [ none ↦ none | some d ↦ some d.action ];
  file_type = elim o.decision [ none ↦ none | some d ↦ d.file_type ];
  policy_id = elim o.decision [ none ↦ none | some d ↦ d.policy_id ];
  bytes_written = o.bytes_written;
  error = o.error;
}
