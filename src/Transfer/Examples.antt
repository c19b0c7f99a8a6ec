-- ===== src/Transfer/Examples.antt =====
-- Runs on a plan of one file.
use dsx_connect.Prelude.{◌≡◌, refl, true, none, some, [], ◌∷◌}
use dsx_connect.Prelude.Dict.{Dict, get}
use dsx_connect.Prelude.Value.{Fields, field, no_fields, str, get_field}
use dsx_connect.Transfer.Models.{
  TransferItem, TransferPlan, TransferVerdict, TransferAction, TransferItemState, ScanDecision,
}
use dsx_connect.Transfer.World.{World, Env, ok}
use dsx_connect.Transfer.World.Returns.{IsOk, IfOk}
use dsx_connect.Transfer.World.Steady.{IsSteady}
use dsx_connect.Transfer.Checkpoint.{
  get_checkpoint, put_checkpoint, new_checkpoint, fingerprint, checkpoint_key,
}
use dsx_connect.Transfer.Policy.{new_policy, expand_file_type_actions}
use dsx_connect.Transfer.Policy.Rules.{last_rule, get-expand_file_type_actions}
use dsx_connect.Transfer.ScanGate.{
  StaticVerdictScanGate, static_decide, scan_chunks, eicar_test_signature, empty_scan, contains,
}
use dsx_connect.Transfer.ScanGate.Window.{scan_chunks-contains, static_decide-joined}
use dsx_connect.Transfer.DsxaGate.{dsxa_decide, verdict_text, reads}
use dsx_connect.Transfer.DsxaGate.FailClosed.{dsxa_decide-benign}
use dsx_connect.Transfer.Engine.{execute_item, execute_plan, outcome_of}
use dsx_connect.Transfer.Engine.Log.{AddsPlan, execute_plan-AddsPlan}
use dsx_connect.Transfer.Engine.Outcomes.{Answers, execute_item-Answers}
use dsx_connect.Transfer.Engine.Steady.{Reports, execute_plan-Reports}
use dsx_connect.Transfer.Engine.Resume.Twice.{Repeats, execute_item-twice}

abbrev file : TransferItem
file = record {
  source_uri = "file:///in/a";
  destination_uri = "file:///out/a";
  object_identity = "a";
  size_bytes = some 3;
  content_type = none;
  metadata = no_fields;
}

abbrev plan : TransferPlan
plan = record {
  transfer_id = "t";
  source_uri = "file:///in";
  destination_uri = "file:///out";
  items = file ∷ [];
  policy_id = none;
  created_at = 0;
  metadata = no_fields;
}

abbrev clean : ScanDecision
clean = record {
  verdict = TransferVerdict.benign;
  action = TransferAction.allow;
  file_type = none;
  policy_id = none;
  scan_guid = none;
  reason = none;
  details = no_fields;
}

abbrev env : Env
env = record {
  clock = λ n. n;
  decide = λ i n. ok clean;
  write = λ i n. ok 3;
  emit = λ e n. none;
  load = λ n. none;
  store = λ d n. none;
  progress = λ k l o n. none;
  repr = λ v. "";
  with_audit = true;
  with_checkpoints = true;
  with_progress = true;
}

-- The audit log raises.
abbrev full_disk : Env
full_disk = record env { emit = λ e n. some (record { name = "OSError"; message = "disk full" }) }

abbrev start : World
start = record { checkpoints = []; audit = []; calls = []; ticks = 0 }

env-IsSteady : IsSteady env
env-IsSteady = record {
  emits = λ e n. refl;
  loads = λ n. refl;
  stores = λ d n. refl;
  reports = λ k l o n. refl;
}

execute_plan-AddsPlan_example : AddsPlan plan.items [] (execute_plan full_disk plan start).1.calls
execute_plan-AddsPlan_example = execute_plan-AddsPlan full_disk plan start

execute_item-Answers_example : IfOk (Answers file) (execute_item env "t" file start).0
execute_item-Answers_example = execute_item-Answers env "t" file start

execute_plan-Reports_example : IsOk (Reports plan) (execute_plan env plan start).0
execute_plan-Reports_example = execute_plan-Reports env plan start env-IsSteady

execute_item-twice_example :
    IsOk
      (Repeats file (outcome_of file TransferItemState.allowed (some clean) 3 none 0 1))
      (execute_item env "t" file (execute_item env "t" file start).1).0
    × ((execute_item env "t" file (execute_item env "t" file start).1).1.calls
        ≡ (execute_item env "t" file start).1.calls)
    × ((execute_item env "t" file (execute_item env "t" file start).1).1.checkpoints
        ≡ (execute_item env "t" file start).1.checkpoints)
unfolding execute_item dsx_connect.Transfer.Engine.attempt_item
    dsx_connect.Transfer.Engine.find_checkpoint dsx_connect.Transfer.Engine.scan_item
    dsx_connect.Transfer.Engine.apply_decision dsx_connect.Transfer.Engine.record_outcome
execute_item-twice_example =
    execute_item-twice env "t" file
      (outcome_of file TransferItemState.allowed (some clean) 3 none 0 1) start env-IsSteady refl
      refl refl

scan_chunks-contains_example :
    ((scan_chunks eicar_test_signature true empty_scan ((1 ∷ []) ∷ (2 ∷ []) ∷ [])).bytes_scanned
      ≡ 2)
    × ((scan_chunks eicar_test_signature true empty_scan ((1 ∷ []) ∷ (2 ∷ []) ∷ [])).eicar_detected
        ≡ contains eicar_test_signature (1 ∷ 2 ∷ []))
scan_chunks-contains_example = scan_chunks-contains ((1 ∷ []) ∷ (2 ∷ []) ∷ [])

abbrev gate : StaticVerdictScanGate
unfolding new_policy
gate = record {
  default_verdict = TransferVerdict.benign;
  verdicts_by_identity = [];
  file_types_by_identity = [];
  detect_eicar_test_file = true;
  policy = new_policy none [] [];
}

static_decide-joined_example :
    static_decide gate file ((1 ∷ []) ∷ (2 ∷ []) ∷ []) ≡ static_decide gate file ((1 ∷ 2 ∷ []) ∷ [])
unfolding gate
static_decide-joined_example =
    static_decide-joined gate file ((1 ∷ []) ∷ (2 ∷ []) ∷ []) ((1 ∷ 2 ∷ []) ∷ []) refl refl

abbrev rules : Dict TransferAction
rules = ("executables", TransferAction.block) ∷ ("PEFileType", TransferAction.allow) ∷ []

get-expand_file_type_actions_example :
    get (expand_file_type_actions rules) "PEFileType" ≡ last_rule rules "PEFileType" none
get-expand_file_type_actions_example = get-expand_file_type_actions rules "PEFileType"

abbrev response : Fields
response = field "verdict" (str "Benign") no_fields

dsxa_decide-benign_example : reads (verdict_text env (get_field response "verdict")) "benign" ≡ true
unfolding dsxa_decide new_policy dsx_connect.Transfer.Checkpoint.py_str
dsxa_decide-benign_example = dsxa_decide-benign env none [] [] file response refl refl refl
