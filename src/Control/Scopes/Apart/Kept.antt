-- ===== src/Control/Scopes/Apart/Kept.antt =====
-- The service keeps the scopes apart.
use Prim.Native.String.{◌++◌}
use dsx_connect.Prelude.{
  ℕ, String, ◌≡◌, refl, sym, ap, ◌∙◌, Bool, true, false, not, ◌&&◌, Option, none, some, List, arith,
  str_eq, eq_iff, if◌then◌else◌, any, is_some, subst,
}
use dsx_connect.Prelude.Value.{Fields}
use dsx_connect.Prelude.Dict.{Dict, get, put, get-put}
use dsx_connect.Control.Selectors.{normalize_selector, selectors_overlap}
use dsx_connect.Control.Models.{ProtectedScopeCreate, ProtectedScopeUpdate, ProtectedScopeRecord}
use dsx_connect.Control.World.{World, Env, ◌>>=◌, uuid4, pure}
use dsx_connect.Control.Repository as Repo
use dsx_connect.Control.Repository.{
  list_scopes, get_integration, or_uuid, store_scope, write_scope, new_scope, merged_scope,
}
use dsx_connect.Control.Scopes.{
  create_scope, update_scope, same_type, conflicts, validate_overlap, get_integration_or_404,
  get_scope_or_404,
}
use dsx_connect.Control.Scopes.Apart.{IsApart, IsApart-put, clash, clash_comm}

-- A scope of the payload was put under some identifier.
abbrev Puts :
    ProtectedScopeCreate → List ℕ → Dict ProtectedScopeRecord → Dict ProtectedScopeRecord → Type 0
unfolding put
Puts p n d e = (k : String) × (a : ℕ) × (b : ℕ) × (e ≡ put d k (new_scope k p n a b))

repo-Puts :
    (env : Env) (p : ProtectedScopeCreate) (n : List ℕ) (w : World)
    → Puts p n w.scopes (Repo.create_scope env p n w).1.scopes
unfolding Repo.create_scope Puts store_scope
repo-Puts env p n w = by p.scope_id
  where
    drawn :
        (b : Bool) (s : String)
        → Puts p n w.scopes
            (((if b then (do hex ← uuid4 env; pure ("scope_" ++ hex)) else pure s)
                >>= store_scope env p n)
              w).1.scopes
    drawn true s = (_, _, _, refl)
    drawn false s = (_, _, _, refl)

    by :
        (o : Option String)
        → Puts p n w.scopes ((or_uuid env "scope_" o >>= store_scope env p n) w).1.scopes
    by none = (_, _, _, refl)
    by (some s) = drawn (str_eq s "") s

create_scope-scopes :
    (env : Env) (p : ProtectedScopeCreate) (w : World)
    → (create_scope env p w).1.scopes ≡ (
        if is_some (get_integration p.integration_id w)
          && (env.valid_policy p.post_scan_policy
              && not (
                  any
                    (conflicts p.scope_type
                      (normalize_selector p.scope_type p.resource_selector)
                      none)
                    (list_scopes p.integration_id w)))
        then (Repo.create_scope env p
            (normalize_selector p.scope_type p.resource_selector)
            w).1.scopes
        else w.scopes)
unfolding create_scope get_integration_or_404 validate_overlap
create_scope-scopes env p w = ground arith

Puts-IsApart :
    (p : ProtectedScopeCreate) (n : List ℕ) (w : World) (e : Dict ProtectedScopeRecord)
    → Puts p n w.scopes e
    → IsApart w.scopes
    → any (conflicts p.scope_type n none) (list_scopes p.integration_id w) ≡ false
    → IsApart e
unfolding Puts
Puts-IsApart p n w e (k, a, b, q) h c =
    subst IsApart (sym q) (IsApart-put (new_scope k p n a b) k w h c)

-- When no scope of an integration overlaps another of it, so it is after `create_scope`, whether it
-- creates a scope or refuses.
pub create_scope-IsApart :
    (env : Env) (p : ProtectedScopeCreate) (w : World)
    → IsApart w.scopes
    → IsApart (create_scope env p w).1.scopes
create_scope-IsApart env p w h =
    let n = normalize_selector p.scope_type p.resource_selector in
    subst IsApart (sym (create_scope-scopes env p w)) (
      by (is_some (get_integration p.integration_id w)) (env.valid_policy p.post_scan_policy)
        (any (conflicts p.scope_type n none) (list_scopes p.integration_id w)) refl)
  where
    by :
        (a b c : Bool)
        → any
            (conflicts p.scope_type (normalize_selector p.scope_type p.resource_selector) none)
            (list_scopes p.integration_id w)
          ≡ c
        → IsApart (
            if a && (b && not c)
            then (Repo.create_scope env p
                (normalize_selector p.scope_type p.resource_selector)
                w).1.scopes
            else w.scopes)
    by false b c e = h
    by true false c e = h
    by true true true e = h
    by true true false e =
        Puts-IsApart p (normalize_selector p.scope_type p.resource_selector) w
          (Repo.create_scope env p (normalize_selector p.scope_type p.resource_selector) w).1.scopes
          (repo-Puts env p (normalize_selector p.scope_type p.resource_selector) w) h e

-- A row that takes the place of one which holds the same selector clashes with what that one did.
clash-same :
    (a b : ProtectedScopeRecord) (o : Option ProtectedScopeRecord)
    → a.integration_id ≡ b.integration_id
    → a.scope_type ≡ b.scope_type
    → a.normalized_selector ≡ b.normalized_selector
    → clash (some a) o ≡ clash (some b) o
unfolding clash
clash-same a b none i t n = refl
clash-same a b (some c) i t n =
    ap
      (λ x.
        str_eq x c.integration_id
        && (same_type a.scope_type c.scope_type
            && selectors_overlap c.scope_type a.normalized_selector c.normalized_selector))
      i
    ∙ ap
        (λ x.
          str_eq b.integration_id c.integration_id
          && (same_type x c.scope_type
              && selectors_overlap c.scope_type a.normalized_selector c.normalized_selector))
        t
    ∙ ap
        (λ x.
          str_eq b.integration_id c.integration_id
          && (same_type b.scope_type c.scope_type
              && selectors_overlap c.scope_type x c.normalized_selector))
        n

IsApart-replace :
    (d : Dict ProtectedScopeRecord) (k : String) (a b : ProtectedScopeRecord)
    → get d k ≡ some b
    → a.integration_id ≡ b.integration_id
    → a.scope_type ≡ b.scope_type
    → a.normalized_selector ≡ b.normalized_selector
    → IsApart d
    → IsApart (put d k a)
unfolding IsApart
IsApart-replace d k a b g i t n h x y = grind (
  arith,
  get-put d k x a,
  get-put d k y a,
  g,
  h x y,
  h x k,
  h k y,
  clash-same a b (get d y) i t n,
  clash-same a b (get d x) i t n,
  clash_comm (some a) (get d x),
  clash_comm (some b) (get d x),
  eq_iff k x,
  eq_iff k y,
  eq_iff x y,
)

policy_ok : Env → Option Fields → Bool
policy_ok env none = true
policy_ok env (some q) = env.valid_policy q

update_scope-scopes :
    (env : Env) (id : String) (p : ProtectedScopeUpdate) (w : World) (row : ProtectedScopeRecord)
    → get w.scopes id ≡ some row
    → (update_scope env id p w).1.scopes ≡ (
        if policy_ok env p.post_scan_policy
          && not (
              any
                (conflicts row.scope_type row.normalized_selector (some id))
                (list_scopes row.integration_id w))
        then put w.scopes id (merged_scope row p (some row.normalized_selector) (env.clock w.ticks))
        else w.scopes)
unfolding update_scope get_scope_or_404 validate_overlap Repo.update_scope write_scope policy_ok
    Repo.get_scope
update_scope-scopes env id p w row g = ground (arith, g)

update_scope-missing :
    (env : Env) (id : String) (p : ProtectedScopeUpdate) (w : World)
    → get w.scopes id ≡ none
    → (update_scope env id p w).1.scopes ≡ w.scopes
unfolding update_scope get_scope_or_404 Repo.get_scope
update_scope-missing env id p w g = ground (arith, g)

-- When no scope of an integration overlaps another of it, so it is after `update_scope`, whether it
-- changes a scope or refuses.
pub update_scope-IsApart :
    (env : Env) (id : String) (p : ProtectedScopeUpdate) (w : World)
    → IsApart w.scopes
    → IsApart (update_scope env id p w).1.scopes
update_scope-IsApart env id p w h = by (get w.scopes id) refl
  where
    chosen :
        (b : Bool) (d e : Dict ProtectedScopeRecord)
        → IsApart d
        → IsApart e
        → IsApart (if b then d else e)
    chosen true d e x y = x
    chosen false d e x y = y

    by :
        (o : Option ProtectedScopeRecord)
        → get w.scopes id ≡ o
        → IsApart (update_scope env id p w).1.scopes
    by none g = subst IsApart (sym (update_scope-missing env id p w g)) h
    by (some row) g = subst IsApart (sym (update_scope-scopes env id p w row g)) (
        chosen
          (policy_ok env p.post_scan_policy
            && not (
                any (conflicts row.scope_type row.normalized_selector (some id))
                  (list_scopes row.integration_id w)))
          (put w.scopes id (merged_scope row p (some row.normalized_selector) (env.clock w.ticks)))
          w.scopes
          (IsApart-replace w.scopes id
            (merged_scope row p (some row.normalized_selector) (env.clock w.ticks)) row g refl refl
            refl h)
          h)
