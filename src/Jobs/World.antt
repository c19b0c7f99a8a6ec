-- ===== src/Jobs/World.antt =====
-- What a job method reads and writes: the dictionaries of `InMemoryJobRepository` and the list of
-- `InMemoryJobBus` (dsx_connect_ng/dsx_connect_ng/jobs/repository.py, jobs/bus.py), and how many readings of the
-- clock and fresh identifiers were taken. A method returns or raises, and what it wrote stays
-- written in both cases.
pub mod Keeps
pub mod Total
use dsx_connect.Prelude.{
  ℕ, suc, String, Bool, true, false, Option, none, some, if◌then◌else◌, List, [], ◌∷◌, ◌++◌,
}
use dsx_connect.Prelude.Dict.{Dict}
use dsx_connect.Prelude.Value.{Fields, Value}
use dsx_connect.Jobs.Models.{JobRecord, JobItemRecord, OutboxRecord, Envelope, ContentSource}
use dsx_connect.Jobs.Policy.{PolicyHandoffDecision, PolicyDecision}

pub record World : Type 0 where
  pub jobs : Dict JobRecord
  pub job_items : Dict JobItemRecord
  pub outbox : Dict OutboxRecord
  pub scan_leases : Dict (String × ℕ)
  pub published : List Envelope
  pub ticks : ℕ
  pub uuids : ℕ

-- What the service reads of an integration and of a protected scope.
pub record Integration : Type 0 where
  pub integration_id : String
  pub display_name : String
  pub platform : String
  pub platform_key : String
  pub config : Fields

pub record Scope : Type 0 where
  pub scope_id : String
  pub integration_id : String
  pub display_name : String
  pub scope_type : String
  pub mode : String
  pub resource_selector : String
  pub normalized_selector : String
  pub post_scan_policy : Fields

-- The operations of `ControlPlaneService` that the job service calls; `none` is a 404.
-- `match_scope` takes the integration and the path; `resolve_policy` is `resolve_policy_runtime_config`.
pub record ControlPlane : Type 0 where
  pub integration : String → Option Integration
  pub scope : String → Option Scope
  pub match_scope : String → String → Option Scope
  pub resolve_policy : Fields → Fields → Value

-- pydantic: `model_validate` (`none` is a `ValidationError`) and `model_dump`.
pub record Codec : Type 0 where
  pub dump_source : ContentSource → Value
  pub dump_scan_result : Fields → Option Value
  pub read_handoff : Fields → Option PolicyHandoffDecision
  pub read_decision : Fields → Option PolicyDecision

-- What the methods take from outside. The n-th reading of `utcnow()`, the n-th `uuid4().hex`, and
-- `await bus.publish(envelope)`: a message if it raises, and the world that the caller wakes up in.
-- Whatever other tasks do during the wait is a part of that world.
pub record Env : Type 0 where
  pub clock : ℕ → ℕ
  pub uuid : ℕ → String
  pub publish : Envelope → World → Option String × World
  pub control_plane : Option ControlPlane
  pub codec : Codec
  pub scan_worker_replicas : Option ℕ

-- `InMemoryJobBus.publish`: nothing is raised, and no other task runs.
abbrev pub memory_publish : Envelope → World → Option String × World
memory_publish e w = (none, record w { published = w.published ++ (e ∷ []) })

-- `HTTPException(status_code, detail)`, an error of pydantic's validation or of a value that it let
-- pass, or an exception of a worker's executor: a `TerminalScanError`, or any other.
pub data Raised : Type 0 where
  http : ℕ → String → Raised
  invalid : Raised
  terminal_error other_error : String → Raised

pub data Result {ℓ} (A : Type ℓ) : Type ℓ where
  ok : A → Result A
  raised : Raised → Result A

abbrev pub M : Type 0 → Type 0
M A = World → Result A × World

abbrev pub continue : {A B : Type 0} → Result A → (A → M B) → M B
continue (ok a) f w = f a w
continue (raised x) f w = (raised x, w)

infixl 5 ◌>>=◌ ◌>>◌
abbrev pub ◌>>=◌ : {A B : Type 0} → M A → (A → M B) → M B
◌>>=◌ m f w = let (r, w') = m w in continue r f w'

abbrev pub ◌>>◌ : {A B : Type 0} → M A → M B → M B
m >> n = m >>= λ _. n

abbrev pub pure : {A : Type 0} → A → M A
pure a w = (ok a, w)

abbrev pub raise : {A : Type 0} → Raised → M A
raise x w = (raised x, w)

abbrev pub gets : {A : Type 0} → (World → A) → M A
gets f w = (ok (f w), w)

abbrev pub modify : (World → World) → M (Unit {0})
modify f w = (ok tt, f w)

abbrev pub utcnow : Env → M ℕ
utcnow env w = (ok (env.clock w.ticks), record w { ticks = suc w.ticks })

abbrev pub uuid4 : Env → M String
uuid4 env w = (ok (env.uuid w.uuids), record w { uuids = suc w.uuids })

-- A lookup that raises 404 where nothing is found.
abbrev pub or_404 : {A : Type 0} → Option A → String → M A
or_404 none detail = raise (http 404 detail)
or_404 (some a) detail = pure a

-- A read-back that raises 500 where the row is gone.
abbrev pub or_500 : {A : Type 0} → Option A → String → M A
or_500 none detail = raise (http 500 detail)
or_500 (some a) detail = pure a

abbrev pub or_invalid : {A : Type 0} → Option A → M A
or_invalid none = raise invalid
or_invalid (some a) = pure a

-- `if test: raise HTTPException(status, detail)`
abbrev pub raise_if : Bool → ℕ → String → M (Unit {0})
raise_if test status detail w = (if test then raised (http status detail) else ok tt, w)

-- `if test: …` with nothing after it in the branch
abbrev pub when : Bool → M (Unit {0}) → M (Unit {0})
when test m = if test then m else pure tt

-- Did the call return?
abbrev pub is_ok : {A : Type 0} → Result A → Bool
is_ok (ok a) = true
is_ok (raised x) = false
