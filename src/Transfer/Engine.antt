-- ===== src/Transfer/Engine.antt =====
-- dsx_transfer/dsx_transfer/engine.py: the run of a plan, one item after another.
pub mod Resume
pub mod Log
pub mod Steady
pub mod Outcomes
pub mod Calls
use dsx_connect.Prelude.{
  ℕ, suc, zero, ◌+◌, String, Bool, true, false, Option, none, some, List, [], ◌∷◌, if◌then◌else◌,
  length,
}
use dsx_connect.Transfer.Models.{
  TransferAction, TransferItemState, TransferItem, TransferItemOutcome, TransferPlan,
  TransferReport, ScanDecision, CheckpointRecord, TransferError, decision_allowed, is_state,
  from_outcome,
}
use dsx_connect.Transfer.World.{
  World, Env, M, ◌>>=◌, ◌>>◌, pure, rescue, utcnow, ask_gate, write_item, emit_event,
  report_progress,
}
use dsx_connect.Transfer.Checkpoint.{get_checkpoint, put_checkpoint}

-- `_state_for_non_allow_action`
abbrev pub state_for_non_allow_action : TransferAction → TransferItemState
state_for_non_allow_action TransferAction.exclude = TransferItemState.excluded
state_for_non_allow_action _ = TransferItemState.blocked

-- `_get_checkpoint`
unfoldable pub find_checkpoint : Env → String → TransferItem → M (Option CheckpointRecord)
unfolding get_checkpoint
find_checkpoint env transfer_id item =
    if env.with_checkpoints then get_checkpoint env transfer_id item else pure none

-- `_emit_audit`
unfoldable pub emit_audit : Env → String → TransferItemOutcome → M (Unit {0})
unfolding from_outcome
emit_audit env transfer_id o =
    if env.with_audit then emit_event env (from_outcome transfer_id o) else pure tt

-- `_record_outcome`
unfoldable pub record_outcome : Env → String → TransferItemOutcome → M (Unit {0})
unfolding put_checkpoint emit_audit
record_outcome env transfer_id o = do
  if env.with_checkpoints then put_checkpoint env transfer_id o else pure tt
  emit_audit env transfer_id o

abbrev pub recorded : Env → String → TransferItemOutcome → M TransferItemOutcome
recorded env transfer_id o = do record_outcome env transfer_id o; pure o

-- `TransferItemOutcome(item=…, state=…, decision=…, …)`
abbrev pub outcome_of :
    TransferItem
    → TransferItemState
    → Option ScanDecision
    → ℕ
    → Option TransferError
    → ℕ
    → ℕ
    → TransferItemOutcome
outcome_of item state decision bytes error started_at completed_at = record {
  item = item;
  state = state;
  decision = decision;
  bytes_written = bytes;
  started_at = started_at;
  completed_at = completed_at;
  error = error;
}

-- The same, with `completed_at=utcnow()`
abbrev pub new_outcome :
    Env
    → TransferItem
    → TransferItemState
    → Option ScanDecision
    → ℕ
    → Option TransferError
    → ℕ
    → M TransferItemOutcome
new_outcome env item state decision bytes error started_at = do
  completed_at ← utcnow env
  pure (outcome_of item state decision bytes error started_at completed_at)

-- The branch of a checkpoint that was allowed.
unfoldable pub skip_item :
    Env → String → TransferItem → CheckpointRecord → ℕ → M TransferItemOutcome
skip_item env transfer_id item row started_at = do
  o ←
      new_outcome env item TransferItemState.skipped row.outcome.decision row.outcome.bytes_written
        none started_at
  emit_audit env transfer_id o
  pure o

-- What follows a decision that allows the item.
abbrev pub accept_item : Env → String → TransferItem → ℕ → ScanDecision → M TransferItemOutcome
accept_item env transfer_id item started_at d = do
  bytes_written ← write_item env item
  o ← new_outcome env item TransferItemState.allowed (some d) bytes_written none started_at
  recorded env transfer_id o

-- What follows one that does not.
abbrev pub refuse_item : Env → String → TransferItem → ℕ → ScanDecision → M TransferItemOutcome
refuse_item env transfer_id item started_at d = do
  o ← new_outcome env item (state_for_non_allow_action d.action) (some d) 0 none started_at
  recorded env transfer_id o

unfoldable pub apply_decision :
    Env → String → TransferItem → ℕ → ScanDecision → M TransferItemOutcome
apply_decision env transfer_id item started_at d =
    if decision_allowed d
    then accept_item env transfer_id item started_at d
    else refuse_item env transfer_id item started_at d

unfoldable pub scan_item : Env → String → TransferItem → ℕ → M TransferItemOutcome
scan_item env transfer_id item started_at = do
  d ← ask_gate env item
  apply_decision env transfer_id item started_at d

-- The choice between the two.
abbrev pub resume_or_scan :
    Env → String → TransferItem → ℕ → Option CheckpointRecord → M TransferItemOutcome
resume_or_scan env transfer_id item started_at none = scan_item env transfer_id item started_at
resume_or_scan env transfer_id item started_at (some row) =
    if is_state row.state TransferItemState.allowed
    then skip_item env transfer_id item row started_at
    else scan_item env transfer_id item started_at

-- The body of the `try`.
unfoldable pub attempt_item : Env → String → TransferItem → ℕ → M TransferItemOutcome
attempt_item env transfer_id item started_at = do
  found ← find_checkpoint env transfer_id item
  resume_or_scan env transfer_id item started_at found

-- The body of the `except`.
unfoldable pub fail_item : Env → String → TransferItem → ℕ → TransferError → M TransferItemOutcome
fail_item env transfer_id item started_at x = do
  o ← new_outcome env item TransferItemState.failed none 0 (some x) started_at
  recorded env transfer_id o

-- `_execute_item`
unfoldable pub execute_item : Env → String → TransferItem → M TransferItemOutcome
execute_item env transfer_id item = do
  started_at ← utcnow env
  rescue (attempt_item env transfer_id item started_at) (fail_item env transfer_id item started_at)

-- `record_progress`, with the counter that it advances
abbrev pub record_progress : Env → ℕ → ℕ → TransferItemOutcome → M ℕ
record_progress env completed total o =
    if env.with_progress
    then report_progress env (completed + 1) total o >> pure (completed + 1)
    else pure completed

-- The loop over the items.
unfoldable pub execute_items :
    Env → String → ℕ → ℕ → List TransferItem → M (List TransferItemOutcome)
execute_items env transfer_id completed total [] = pure []
execute_items env transfer_id completed total (item ∷ items) = do
  o ← execute_item env transfer_id item
  n ← record_progress env completed total o
  rest ← execute_items env transfer_id n total items
  pure (o ∷ rest)

-- `TransferReport(…)`, with the time at which it is made
abbrev pub new_report : Env → TransferPlan → ℕ → List TransferItemOutcome → M TransferReport
new_report env plan started_at outcomes = do
  completed_at ← utcnow env
  pure (record {
    transfer_id = plan.transfer_id;
    source_uri = plan.source_uri;
    destination_uri = plan.destination_uri;
    policy_id = plan.policy_id;
    outcomes = outcomes;
    started_at = started_at;
    completed_at = completed_at;
  })

-- `execute_plan` of an engine whose concurrency is one.
unfoldable pub execute_plan : Env → TransferPlan → M TransferReport
execute_plan env plan = do
  started_at ← utcnow env
  outcomes ← execute_items env plan.transfer_id 0 (length plan.items) plan.items
  new_report env plan started_at outcomes
