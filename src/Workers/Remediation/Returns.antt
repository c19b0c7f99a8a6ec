-- ===== src/Workers/Remediation/Returns.antt =====
-- What the computations of connector_actions.py and delivery_worker.py return, step by step.
use dsx_connect.Prelude.{◌≡◌, refl, subst}
use dsx_connect.Jobs.World.{Result, ok, raised, Raised}
use dsx_connect.Workers.Remediation.Connector.{◌>>=◌}

-- What a computation returns satisfies `P`, if it does not raise.
pub record Returns {A : Type 0} (P : A → Type 0) (r : Result A) : Type 0 where
  pub on_ok : (a : A) → r ≡ ok a → P a

pub Returns-bind :
    {A B : Type 0} (P : B → Type 0) (m : Result A) (f : A → Result B)
    → ((a : A) → m ≡ ok a → Returns P (f a))
    → Returns P (m >>= f)
Returns-bind P (ok a) f h = h a refl
Returns-bind P (raised x) f h = record { on_ok = λ b e. absurd (raised_is_not_ok x b e) }
  where
    raised_is_not_ok : {B : Type 0} (x : Raised) (b : B) → raised x ≡ ok b → ⊥
    raised_is_not_ok x b e = cc

pub Returns-ok : {A : Type 0} (P : A → Type 0) (a : A) → P a → Returns P (ok a)
Returns-ok P a h = record { on_ok = λ b e. subst P (ok-inj a b e) h }
  where
    ok-inj : {A : Type 0} (a b : A) → ok a ≡ ok b → a ≡ b
    ok-inj a b e = cc
