-- ===== src/Transfer/ScanGate.antt =====
-- dsx_transfer/dsx_transfer/scan_gates.py: the demonstration gate, which looks for the EICAR test
-- file in a stream of chunks. Bytes are numbers.
pub mod Window
use dsx_connect.Prelude.{
  ℕ, String, Bool, true, false, not, ◌&&◌, ◌||◌, Option, none, some, List, [], ◌∷◌, ◌++◌, ◌+◌, ◌-◌,
  length, ◌==◌, leb, if◌then◌else◌,
}
use dsx_connect.Prelude.Text.{codes}
use dsx_connect.Prelude.Dict.{Dict, get}
use dsx_connect.Prelude.Value.{field, no_fields, num, bool}
use dsx_connect.Transfer.Models.{TransferVerdict, TransferItem, ScanDecision, ScanObservation}
use dsx_connect.Transfer.Policy.{GuardedTransferPolicy, evaluate}

-- `EICAR_TEST_SIGNATURE`
abbrev pub eicar_test_signature : List ℕ
eicar_test_signature = codes "X5O!P%@AP[4\\PZX54(P^)7CC)7}$EICAR-STANDARD-ANTIVIRUS-TEST-FILE!$H+H*"

abbrev pub starts_with : List ℕ → List ℕ → Bool
starts_with [] xs = true
starts_with (p ∷ ps) [] = false
starts_with (p ∷ ps) (x ∷ xs) = p == x && starts_with ps xs

-- `p in xs`
unfoldable pub contains : List ℕ → List ℕ → Bool
contains p [] = starts_with p []
contains p (x ∷ xs) = starts_with p (x ∷ xs) || contains p xs

-- `xs[-n:]` for a positive `n`
unfoldable pub last_of : ℕ → List ℕ → List ℕ
last_of n [] = []
last_of n (x ∷ xs) =
    let rest : List ℕ = last_of n xs in if leb (length (x ∷ xs)) n then x ∷ xs else rest

-- What the loop over the chunks carries.
pub record ScanState : Type 0 where
  pub bytes_scanned : ℕ
  pub eicar_detected : Bool
  pub tail : List ℕ

-- One turn of the loop.
abbrev pub take_chunk : List ℕ → Bool → ScanState → List ℕ → ScanState
unfolding contains last_of
take_chunk signature detect s chunk =
    if detect && not s.eicar_detected
    then record {
      bytes_scanned = s.bytes_scanned + length chunk;
      eicar_detected = contains signature (s.tail ++ chunk);
      tail = last_of (length signature - 1) (s.tail ++ chunk);
    }
    else record s { bytes_scanned = s.bytes_scanned + length chunk }

unfoldable pub scan_chunks : List ℕ → Bool → ScanState → List (List ℕ) → ScanState
scan_chunks signature detect s [] = s
scan_chunks signature detect s (chunk ∷ chunks) =
    scan_chunks signature detect (take_chunk signature detect s chunk) chunks

pub record StaticVerdictScanGate : Type 0 where
  pub default_verdict : TransferVerdict
  pub verdicts_by_identity : Dict TransferVerdict
  pub file_types_by_identity : Dict String
  pub detect_eicar_test_file : Bool
  pub policy : GuardedTransferPolicy

abbrev pub empty_scan : ScanState
empty_scan = record { bytes_scanned = 0; eicar_detected = false; tail = [] }

-- `verdict`
abbrev pub static_verdict : StaticVerdictScanGate → Option TransferVerdict → Bool → TransferVerdict
static_verdict gate (some v) detected = v
static_verdict gate none detected =
    if detected then TransferVerdict.malicious else gate.default_verdict

-- The decision once the loop has ended.
abbrev pub decide_after : StaticVerdictScanGate → TransferItem → ScanState → ScanDecision
unfolding get evaluate
decide_after gate item s = evaluate gate.policy item (record {
  verdict =
      static_verdict gate (get gate.verdicts_by_identity item.object_identity) s.eicar_detected;
  file_type = get gate.file_types_by_identity item.object_identity;
  scan_guid = none;
  details =
      field "bytes_scanned" (num s.bytes_scanned)
        (field "demo_eicar_test_file_detected" (bool s.eicar_detected) no_fields);
})

-- `StaticVerdictScanGate.decide`
unfoldable pub static_decide : StaticVerdictScanGate → TransferItem → List (List ℕ) → ScanDecision
unfolding scan_chunks
static_decide gate item chunks =
    decide_after gate item
      (scan_chunks eicar_test_signature gate.detect_eicar_test_file empty_scan chunks)
