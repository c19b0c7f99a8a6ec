-- ===== src/Transfer/World.antt =====
-- What a transfer reads and writes: the checkpoint file, the audit log, and what went to the gate, the sink
-- and the progress callback, in order. A call returns or raises, and what it wrote stays written.
pub mod Returns
pub mod Steady
use dsx_connect.Prelude.{ℕ, suc, String, Bool, Option, none, some, List, [], ◌∷◌, ◌++◌}
use dsx_connect.Prelude.Dict.{Dict}
use dsx_connect.Prelude.Value.{Value}
use dsx_connect.Transfer.Models.{
  TransferItem, ScanDecision, TransferItemOutcome, CheckpointRecord, AuditEvent, TransferError,
}

pub data Result {ℓ} (A : Type ℓ) : Type ℓ where
  ok : A → Result A
  raised : TransferError → Result A

-- What crossed the border of the engine.
pub data Call : Type 0 where
  gate_decided : TransferItem → Result ScanDecision → Call
  sink_wrote : TransferItem → Result ℕ → Call
  progress_reported : ℕ → ℕ → TransferItemOutcome → Call

pub record World : Type 0 where
  pub checkpoints : Dict CheckpointRecord
  pub audit : List AuditEvent
  pub calls : List Call
  pub ticks : ℕ

-- The scan gate, the sink, the audit sink, the file of the checkpoints and the progress callback,
-- which the engine only calls; the ℕ is the number of readings of the clock so far. `emit`, `load`
-- and `progress` give the error that they raise. `store` gives none when the file holds what was
-- written, and else the error with what the file holds after it. `repr` is Python's `str` of a list
-- or a dict. `with_audit`, `with_checkpoints` and `with_progress` say what the engine was given.
pub record Env : Type 0 where
  pub clock : ℕ → ℕ
  pub decide : TransferItem → ℕ → Result ScanDecision
  pub write : TransferItem → ℕ → Result ℕ
  pub emit : AuditEvent → ℕ → Option TransferError
  pub load : ℕ → Option TransferError
  pub store : Dict CheckpointRecord → ℕ → Option (TransferError × Dict CheckpointRecord)
  pub progress : ℕ → ℕ → TransferItemOutcome → ℕ → Option TransferError
  pub repr : Value → String
  pub with_audit : Bool
  pub with_checkpoints : Bool
  pub with_progress : Bool

abbrev pub M : Type 0 → Type 0
M A = World → Result A × World

abbrev pub continue : {A B : Type 0} → Result A → (A → M B) → M B
continue (ok a) f w = f a w
continue (raised x) f w = (raised x, w)

infixl 5 ◌>>=◌ ◌>>◌
abbrev pub ◌>>=◌ : {A B : Type 0} → M A → (A → M B) → M B
◌>>=◌ m f w = let (r, w') = m w in continue r f w'

abbrev pub ◌>>◌ : {A B : Type 0} → M A → M B → M B
m >> n = m >>= λ _. n

abbrev pub pure : {A : Type 0} → A → M A
pure a w = (ok a, w)

abbrev pub modify : (World → World) → M (Unit {0})
modify f w = (ok tt, f w)

abbrev pub gets : {A : Type 0} → (World → A) → M A
gets f w = (ok (f w), w)

abbrev pub utcnow : Env → M ℕ
utcnow env w = (ok (env.clock w.ticks), record w { ticks = suc w.ticks })

-- `raise error`, if there is one
abbrev pub check : Option TransferError → M (Unit {0})
check none w = (ok tt, w)
check (some x) w = (raised x, w)

abbrev pub handle : {A : Type 0} → Result A → (TransferError → M A) → M A
handle (ok a) h w = (ok a, w)
handle (raised x) h w = h x w

-- `try: … except Exception as exc: …`
abbrev pub rescue : {A : Type 0} → M A → (TransferError → M A) → M A
rescue m h w = let (r, w') = m w in handle r h w'

-- `await self.scan_gate.decide(item, …)`
abbrev pub ask_gate : Env → TransferItem → M ScanDecision
ask_gate env item w =
    let r : Result ScanDecision = env.decide item w.ticks in
    (r, record w { calls = w.calls ++ (gate_decided item r ∷ []) })

-- `await self.sink.write_item(item, …)`
abbrev pub write_item : Env → TransferItem → M ℕ
write_item env item w =
    let r : Result ℕ = env.write item w.ticks in
    (r, record w { calls = w.calls ++ (sink_wrote item r ∷ []) })

-- `await self.progress_callback(…)`
abbrev pub report_progress : Env → ℕ → ℕ → TransferItemOutcome → M (Unit {0})
report_progress env done total o w =
    check (env.progress done total o w.ticks)
      (record w { calls = w.calls ++ (progress_reported done total o ∷ []) })

abbrev pub emitted : Option TransferError → AuditEvent → M (Unit {0})
emitted (some x) e w = (raised x, w)
emitted none e w = (ok tt, record w { audit = w.audit ++ (e ∷ []) })

-- `await self.audit_sink.emit(event)`
abbrev pub emit_event : Env → AuditEvent → M (Unit {0})
emit_event env e w = emitted (env.emit e w.ticks) e w

abbrev pub stored :
    Option (TransferError × Dict CheckpointRecord) → Dict CheckpointRecord → M (Unit {0})
stored (some (x, d)) e w = (raised x, record w { checkpoints = d })
stored none e w = (ok tt, record w { checkpoints = e })

-- `self.path.write_text(json.dumps(data, …))`
abbrev pub write_file : Env → Dict CheckpointRecord → M (Unit {0})
write_file env d w = stored (env.store d w.ticks) d w

-- `self._load()`
abbrev pub load_file : Env → M (Dict CheckpointRecord)
load_file env w = (check (env.load w.ticks) >> gets (λ v. v.checkpoints)) w
