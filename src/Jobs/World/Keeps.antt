-- ===== src/Jobs/World/Keeps.antt =====
-- Invariants of methods, one rule for each way to build a method.
use dsx_connect.Prelude.{String, Bool, true, false, Option, none, some, if◌then◌else◌}
use dsx_connect.Jobs.World.{
  World, M, Result, ok, raised, Raised, continue, pure, raise, gets, or_404, or_500, when, ◌>>=◌,
}

-- `m` keeps `P`, whether it returns or raises.
pub record Keeps {A : Type 0} (P : World → Type 0) (m : M A) : Type 0 where
  pub at : (w : World) → P w → P (m w).1

module _ {P : World → Type 0} where
  pub Keeps-pure : {A : Type 0} (a : A) → Keeps P (pure a)
  Keeps-pure a = record { at = λ w h. h }

  pub Keeps-raise : {A : Type 0} (x : Raised) → Keeps P (raise {A = A} x)
  Keeps-raise x = record { at = λ w h. h }

  pub Keeps-gets : {A : Type 0} (f : World → A) → Keeps P (gets f)
  Keeps-gets f = record { at = λ w h. h }

  pub Keeps-bind :
      {A B : Type 0} (m : M A) (f : A → M B)
      → Keeps P m
      → ((a : A) → Keeps P (f a))
      → Keeps P (m >>= f)
  Keeps-bind {A = A} {B = B} m f km kf = record { at = λ w h. finish (m w).0 (m w).1 (km.at w h) }
    where
      finish : (r : Result A) (w : World) → P w → P (continue r f w).1
      finish (ok a) w h = (kf a).at w h
      finish (raised x) w h = h

  pub Keeps-or_404 : {A : Type 0} (o : Option A) (d : String) → Keeps P (or_404 o d)
  Keeps-or_404 none d = record { at = λ w h. h }
  Keeps-or_404 (some a) d = record { at = λ w h. h }

  pub Keeps-or_500 : {A : Type 0} (o : Option A) (d : String) → Keeps P (or_500 o d)
  Keeps-or_500 none d = record { at = λ w h. h }
  Keeps-or_500 (some a) d = record { at = λ w h. h }

  pub Keeps-if :
      {A : Type 0} (b : Bool) (m n : M A) → Keeps P m → Keeps P n → Keeps P (if b then m else n)
  Keeps-if true m n km kn = km
  Keeps-if false m n km kn = kn

  pub Keeps-when : (b : Bool) (m : M (Unit {0})) → Keeps P m → Keeps P (when b m)
  Keeps-when true m km = km
  Keeps-when false m km = record { at = λ w h. h }

pub ruleset keeps_rules = (
  Keeps-pure, Keeps-raise, Keeps-gets, Keeps-or_404, Keeps-or_500, Keeps-when, Keeps-if, Keeps-bind,
)

-- `m` leads from `P` to `Q`, whether it returns or raises.
pub record Leads {A : Type 0} (P Q : World → Type 0) (m : M A) : Type 0 where
  pub at : (w : World) → P w → Q (m w).1

module _ {P Q : World → Type 0} where
  -- The first step leads to `Q`, and the others keep it.
  pub Leads-first :
      {A B : Type 0} (m : M A) (f : A → M B)
      → Leads P Q m
      → ((a : A) → Keeps Q (f a))
      → Leads P Q (m >>= f)
  Leads-first {A = A} {B = B} m f km kf = record { at = λ w h. finish (m w).0 (m w).1 (km.at w h) }
    where
      finish : (r : Result A) (w : World) → Q w → Q (continue r f w).1
      finish (ok a) w h = (kf a).at w h
      finish (raised x) w h = h
