-- ===== src/Control/World.antt =====
-- The state of the control plane: the dictionaries of InMemoryControlPlaneRepository. A method returns
-- or raises an HTTPException, and leaves a state in both cases.
use dsx_connect.Prelude.{ℕ, suc, String, Bool, true, false, Option, none, some}
use dsx_connect.Prelude.Dict.{Dict}
use dsx_connect.Prelude.Value.{Fields}
use dsx_connect.Control.Models.{IntegrationRecord, ConnectorInstanceRecord, ProtectedScopeRecord}

pub record World : Type 0 where
  pub integrations : Dict IntegrationRecord
  pub connector_instances : Dict ConnectorInstanceRecord
  pub scopes : Dict ProtectedScopeRecord
  pub ticks : ℕ

-- The n-th reading of the clock, in microseconds, the n-th `uuid4().hex`, and pydantic's checks of the two kinds of
-- configuration.
pub record Env : Type 0 where
  pub clock : ℕ → ℕ
  pub uuid : ℕ → String
  pub valid_config : Fields → Bool
  pub valid_policy : Fields → Bool

-- `HTTPException(status_code, detail)`, the detail's code alone
pub record HttpError : Type 0 where
  pub status_code : ℕ
  pub detail : String

pub data Result {ℓ} (A : Type ℓ) : Type ℓ where
  ok : A → Result A
  raised : HttpError → Result A

abbrev pub M : Type 0 → Type 0
M A = World → Result A × World

abbrev pub continue : {A B : Type 0} → Result A → (A → M B) → M B
continue (ok a) f w = f a w
continue (raised x) f w = (raised x, w)

infixl 5 ◌>>=◌ ◌>>◌
abbrev pub ◌>>=◌ : {A B : Type 0} → M A → (A → M B) → M B
◌>>=◌ m f w = let (r, w') = m w in continue r f w'

abbrev pub ◌>>◌ : {A B : Type 0} → M A → M B → M B
m >> n = m >>= λ _. n

abbrev pub pure : {A : Type 0} → A → M A
pure a w = (ok a, w)

abbrev pub gets : {A : Type 0} → (World → A) → M A
gets f w = (ok (f w), w)

abbrev pub modify : (World → World) → M (Unit {0})
modify f w = (ok tt, f w)

abbrev pub http_error : {A : Type 0} → ℕ → String → M A
http_error code detail w = (raised (record { status_code = code; detail = detail }), w)

abbrev pub or_404 : {A : Type 0} → Option A → String → M A
or_404 none detail w = (raised (record { status_code = 404; detail = detail }), w)
or_404 (some a) detail w = (ok a, w)

-- `if not b: raise HTTPException(code, detail)`
abbrev pub demand : Bool → ℕ → String → M (Unit {0})
demand true code detail w = (ok tt, w)
demand false code detail w = (raised (record { status_code = code; detail = detail }), w)

abbrev pub utcnow : Env → M ℕ
utcnow env w = (ok (env.clock w.ticks), record w { ticks = suc w.ticks })

abbrev pub uuid4 : Env → M String
uuid4 env w = (ok (env.uuid w.ticks), record w { ticks = suc w.ticks })
