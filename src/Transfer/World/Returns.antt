-- ===== src/Transfer/World/Returns.antt =====
-- What methods return: `Yields P m` when every value that `m` returns satisfies `P`, `Returns P m`
-- when moreover it never raises; with one rule for each way to build a method.
use dsx_connect.Prelude.{Bool, true, false, if◌then◌else◌}
use dsx_connect.Transfer.Models.{TransferError}
use dsx_connect.Transfer.World.{
  World, Env, M, Result, ok, raised, continue, handle, pure, rescue, ◌>>=◌, utcnow,
}

-- If the result is a value, it satisfies `P`.
abbrev pub IfOk : {A : Type 0} → (A → Type 0) → Result A → Type 0
IfOk P (ok a) = P a
IfOk P (raised x) = Unit

-- The result is a value, and it satisfies `P`.
abbrev pub IsOk : {A : Type 0} → (A → Type 0) → Result A → Type 0
IsOk P (ok a) = P a
IsOk P (raised x) = ⊥

pub record Yields {A : Type 0} (P : A → Type 0) (m : M A) : Type 0 where
  pub at : (w : World) → IfOk P (m w).0

pub record Returns {A : Type 0} (P : A → Type 0) (m : M A) : Type 0 where
  pub at : (w : World) → IsOk P (m w).0

module _ {A : Type 0} {P : A → Type 0} where
  pub Yields-pure : (a : A) → P a → Yields P (pure a)
  Yields-pure a p = record { at = λ w. p }

  pub Yields-bind :
      {B : Type 0} (m : M B) (f : B → M A) → ((b : B) → Yields P (f b)) → Yields P (m >>= f)
  Yields-bind {B = B} m f h = record { at = λ w. by (m w).0 (m w).1 }
    where
      by : (r : Result B) (v : World) → IfOk P (continue r f v).0
      by (ok b) v = (h b).at v
      by (raised x) v = tt

  pub Yields-then :
      {B : Type 0} {Q : B → Type 0} (m : M B) (f : B → M A)
      → Yields Q m
      → ((b : B) → Q b → Yields P (f b))
      → Yields P (m >>= f)
  Yields-then {B = B} {Q = Q} m f hm hf = record { at = λ w. by (m w).0 (m w).1 (hm.at w) }
    where
      by : (r : Result B) (v : World) → IfOk Q r → IfOk P (continue r f v).0
      by (ok b) v q = (hf b q).at v
      by (raised x) v q = tt

  pub Yields-if : (b : Bool) (m n : M A) → Yields P m → Yields P n → Yields P (if b then m else n)
  Yields-if true m n h k = h
  Yields-if false m n h k = k

  pub Returns-pure : (a : A) → P a → Returns P (pure a)
  Returns-pure a p = record { at = λ w. p }

  pub Returns-bind :
      {B : Type 0} {Q : B → Type 0} (m : M B) (f : B → M A)
      → Returns Q m
      → ((b : B) → Q b → Returns P (f b))
      → Returns P (m >>= f)
  Returns-bind {B = B} {Q = Q} m f hm hf = record { at = λ w. by (m w).0 (m w).1 (hm.at w) }
    where
      by : (r : Result B) (v : World) → IsOk Q r → IsOk P (continue r f v).0
      by (ok b) v q = (hf b q).at v
      by (raised x) v q = absurd q

  pub Returns-if :
      (b : Bool) (m n : M A) → Returns P m → Returns P n → Returns P (if b then m else n)
  Returns-if true m n h k = h
  Returns-if false m n h k = k

  pub Returns-rescue :
      (m : M A) (f : TransferError → M A)
      → Yields P m
      → ((x : TransferError) → Returns P (f x))
      → Returns P (rescue m f)
  Returns-rescue m f hm hf = record { at = λ w. by (m w).0 (m w).1 (hm.at w) }
    where
      by : (r : Result A) (v : World) → IfOk P r → IsOk P (handle r f v).0
      by (ok a) v h = h
      by (raised x) v h = (hf x).at v

  pub Yields-rescue :
      (m : M A) (f : TransferError → M A)
      → Yields P m
      → ((x : TransferError) → Yields P (f x))
      → Yields P (rescue m f)
  Yields-rescue m f hm hf = record { at = λ w. by (m w).0 (m w).1 (hm.at w) }
    where
      by : (r : Result A) (v : World) → IfOk P r → IfOk P (handle r f v).0
      by (ok a) v h = h
      by (raised x) v h = (hf x).at v

abbrev pub Any : {A : Type 0} → A → Type 0
Any a = Unit

pub Returns-utcnow : (env : Env) → Returns Any (utcnow env)
Returns-utcnow env = record { at = λ w. tt }
