-- ===== src/Jobs/World/Total.antt =====
-- Methods that return from every world, with one rule for each way to build a method.
use dsx_connect.Prelude.{
  ◌≡◌, refl, Bool, true, false, Option, none, some, if◌then◌else◌, arith, is_some, String,
}
use dsx_connect.Jobs.World.{
  World, M, Result, ok, raised, continue, pure, gets, when, ◌>>=◌, ◌>>◌, is_ok, or_500,
}

pub record IsTotal {A : Type 0} (m : M A) : Type 0 where
  pub at : (w : World) → is_ok (m w).0 ≡ true

pub IsTotal-pure : {A : Type 0} (a : A) → IsTotal (pure a)
IsTotal-pure a = record { at = λ w. refl }

pub IsTotal-gets : {A : Type 0} (f : World → A) → IsTotal (gets f)
IsTotal-gets f = record { at = λ w. refl }

-- One step that returns is followed by what returns.
pub continue-is_ok :
    {A B : Type 0} (r : Result A) (f : A → M B) (w : World)
    → is_ok r ≡ true
    → ((a : A) → r ≡ ok a → is_ok (f a w).0 ≡ true)
    → is_ok (continue r f w).0 ≡ true
continue-is_ok (ok a) f w h k = k a refl
continue-is_ok (raised x) f w h k = absurd (ground arith)

pub IsTotal-bind :
    {A B : Type 0} (m : M A) (f : A → M B)
    → IsTotal m
    → ((a : A) → IsTotal (f a))
    → IsTotal (m >>= f)
IsTotal-bind m f tm tf = record {
  at = λ w. continue-is_ok (m w).0 f (m w).1 (tm.at w) (λ a e. (tf a).at (m w).1);
}

pub IsTotal-if :
    {A : Type 0} (b : Bool) (m n : M A) → IsTotal m → IsTotal n → IsTotal (if b then m else n)
IsTotal-if true m n tm tn = tm
IsTotal-if false m n tm tn = tn

pub IsTotal-when : (b : Bool) (m : M (Unit {0})) → IsTotal m → IsTotal (when b m)
IsTotal-when true m tm = tm
IsTotal-when false m tm = record { at = λ w. refl }

pub ruleset total_rules = (IsTotal-pure, IsTotal-gets, IsTotal-when, IsTotal-if, IsTotal-bind)

checked-IsTotal :
    {A B C : Type 0} (rest : M C) (k : A → B) (detail : String) (o : Option A)
    → IsTotal rest
    → is_some o ≡ true
    → IsTotal (rest >> (or_500 o detail >>= λ row. pure (k row)))
checked-IsTotal rest k detail none t h = absurd (ground arith)
checked-IsTotal rest k detail (some a) t h = search (total_rules, t)

-- The first step finds a row, so that the check after the others passes.
pub found-is_ok :
    {A B C : Type 0} (m : M (Option A)) (rest : M C) (k : A → B) (detail : String) (w : World)
    (a : A)
    → (m w).0 ≡ ok (some a)
    → IsTotal rest
    → is_ok ((m >>= λ o. rest >> (or_500 o detail >>= λ row. pure (k row))) w).0 ≡ true
found-is_ok m rest k detail w a e t =
    continue-is_ok (m w).0 _ (m w).1 (rw e)
      (λ o e'. (checked-IsTotal rest k detail o t (ground arith)).at (m w).1)
