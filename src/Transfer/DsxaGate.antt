-- ===== src/Transfer/DsxaGate.antt =====
-- dsx_transfer/dsx_transfer/dsxa_scan_gate.py: the gate that asks the DSXA scanner, given its response
-- as a dict.
pub mod FailClosed
use Prim.Native.Nat.{ℕ}
use dsx_connect.Prelude.{
  String, Bool, true, false, Option, none, some, List, [], ◌∷◌, if◌then◌else◌, ◌==◌, ◌||◌,
}
use dsx_connect.Prelude.Text.{codes, normalized, same_codes}
use dsx_connect.Prelude.Value.{Value, Fields, null, obj, str, get_field, or_value}
use dsx_connect.Transfer.Models.{TransferVerdict, TransferItem, ScanDecision, ScanObservation}
use dsx_connect.Transfer.Policy.{GuardedTransferPolicy, evaluate}
use dsx_connect.Transfer.World.{Env}
use dsx_connect.Transfer.Checkpoint.{py_str}

-- `.replace("_", " ").replace("-", " ")` on codes
abbrev spaced : List ℕ → List ℕ
spaced [] = []
spaced (c ∷ cs) = (if c == 95 || c == 45 then 32 else c) ∷ spaced cs

-- `normalized == name`
abbrev pub reads : List ℕ → String → Bool
reads cs name = same_codes cs (codes name)

-- The text of the verdict, as it is compared.
unfoldable pub verdict_text : Env → Value → List ℕ
unfolding normalized
verdict_text env v = spaced (normalized (py_str env (or_value v (str ""))))

-- `_normalize_dsxa_verdict`
unfoldable pub verdict_of_text : List ℕ → TransferVerdict
verdict_of_text t =
    if reads t "benign"
    then TransferVerdict.benign
    else if reads t "malicious"
    then TransferVerdict.malicious
    else if reads t "non compliant" || reads t "suspicious"
    then TransferVerdict.suspicious
    else if reads t "unknown"
        || reads t "unsupported file type"
        || reads t "not scanned"
        || reads t "scanning"
    then TransferVerdict.unknown
    else TransferVerdict.error

-- `_get_attr_or_key`, for a dict or None
abbrev pub get_key : Value → String → Value
unfolding get_field
get_key (obj d) name = get_field d name
get_key _ name = null

-- `str(v) if v is not None else None`
abbrev pub text_or_none : Env → Value → Option String
text_or_none env null = none
text_or_none env v = some (py_str env v)

-- `scan_observation_from_dsxa_response`
unfoldable pub scan_observation_from_dsxa_response : Env → Fields → ScanObservation
unfolding verdict_of_text verdict_text get_field
scan_observation_from_dsxa_response env response = record {
  verdict = verdict_of_text (verdict_text env (get_field response "verdict"));
  file_type = text_or_none env (get_key (get_field response "file_info") "file_type");
  scan_guid = text_or_none env (get_field response "scan_guid");
  details = response;
}

-- `DsxaStreamScanGate.decide`, for a response of the scanner
unfoldable pub dsxa_decide : Env → GuardedTransferPolicy → TransferItem → Fields → ScanDecision
unfolding scan_observation_from_dsxa_response evaluate
dsxa_decide env policy item response =
    evaluate policy item (scan_observation_from_dsxa_response env response)
