-- ===== src/Control/Scopes/Match.antt =====
-- Which scope covers a path.
use dsx_connect.Prelude.{
  ℕ, String, ◌≡◌, refl, sym, ap, ◌∙◌, Bool, true, false, ◌&&◌, none, some, List, [], ◌∷◌, arith,
  str_eq, eq_iff, eq_refl, if◌then◌else◌, filter, any, All, or_else, subst, Bool-cases, inl, inr,
  is_some,
}
use dsx_connect.Prelude.Dict.{Dict, IsDict, get, values}
use dsx_connect.Prelude.Sort.{sort_by, All-sort_by, ascending}
use dsx_connect.Control.Selectors.{ScopeType, path, identity, normalize_selector, selectors_overlap}
use dsx_connect.Control.Selectors.Cover.{covered-overlap}
use dsx_connect.Control.Models.{ProtectedScopeRecord}
use dsx_connect.Control.World.{World, ok}
use dsx_connect.Control.Repository.{list_scopes, of_integration, get_integration}
use dsx_connect.Control.Scopes.{
  match_scope, get_integration_or_404, covers, longest, best_match, is_candidate, is_longer,
  same_type,
}
use dsx_connect.Control.Scopes.Apart.{IsApart, clash, any-list_scopes, any-values, any-filter}

-- A stored row that covers the path, among rows of which no other one does, is the longest match.
module _ (normalized : List ℕ) (row : ProtectedScopeRecord) where
  -- If it covers the path, it is the row.
  abbrev Only : ProtectedScopeRecord → Type 0
  unfolding covers
  Only r = (covers normalized r ≡ true) → r ≡ row

  either :
      (b : Bool) (r : ProtectedScopeRecord) → r ≡ row → (if b then some r else some row) ≡ some row
  either true r h = ap some h
  either false r h = refl

  step-kept :
      (r : ProtectedScopeRecord)
      → Only r
      → (if covers normalized r && is_longer r (some row) then some r else some row) ≡ some row
  unfolding Only
  step-kept r h = elim (Bool-cases (covers normalized r)) [
    | inl e ↦ either (covers normalized r && is_longer r (some row)) r (h e)
    | inr e ↦ ground (arith, e)
  ]

  longest-kept :
      (rows : List ProtectedScopeRecord)
      → All Only rows
      → longest normalized rows (some row) ≡ some row
  unfolding longest
  longest-kept [] h = refl
  longest-kept (r ∷ rows) h = ap (longest normalized rows) (step-kept r h.0) ∙ longest-kept rows h.1

  step-first :
      (r : ProtectedScopeRecord) (b : Bool)
      → covers normalized r ≡ b
      → (if covers normalized r && is_longer r none then some r else none)
        ≡ (if b then some r else none)
  step-first r b e = ground (arith, e)

  longest-found :
      (rows : List ProtectedScopeRecord)
      → All Only rows
      → any (covers normalized) rows ≡ true
      → longest normalized rows none ≡ some row
  unfolding longest Only
  longest-found [] h k = ground (arith, k)
  longest-found (r ∷ rows) h k = elim (Bool-cases (covers normalized r)) [
    | inl e ↦
        ap (longest normalized rows) (step-first r true e ∙ ap some (h.0 e)) ∙ longest-kept rows h.1
    | inr e ↦
        ap (longest normalized rows) (step-first r false e)
        ∙ longest-found rows h.1 (ground (arith, k, e))
  ]

-- What holds of every stored row holds of the values.
All-values :
    (P : ProtectedScopeRecord → Type 0) (d : Dict ProtectedScopeRecord)
    → IsDict d
    → ((k : String) (r : ProtectedScopeRecord) → get d k ≡ some r → P r)
    → All P (values d)
unfolding values get
All-values P [] u h = tt
All-values P ((j, v) ∷ d) u h = (
  h j v (ground (arith, eq_refl j)),
  All-values P d u.1 (λ k r e. h k r (ground (arith, e, u.0, eq_iff j k))),
)

-- What the kept rows satisfy.
All-filter :
    (P : ProtectedScopeRecord → Type 0) (q : ProtectedScopeRecord → Bool)
    (rows : List ProtectedScopeRecord)
    → All (λ (r : ProtectedScopeRecord). (q r ≡ true) → P r) rows
    → All P (filter q rows)
All-filter P q [] h = tt
All-filter P q (r ∷ rows) h = elim (Bool-cases (q r)) [
  | inl e ↦ rw e (h.0 e, All-filter P q rows h.1)
  | inr e ↦ rw e (All-filter P q rows h.1)
]

path_overlap :
    (s t : ScopeType) (l r : List ℕ)
    → same_type s path ≡ true
    → same_type t path ≡ true
    → selectors_overlap path l r ≡ true
    → (same_type s t && selectors_overlap t l r) ≡ true
path_overlap path path l r h k o = o
path_overlap path identity l r h k o = ground (arith, k)
path_overlap identity t l r h k o = ground (arith, h)

-- Two path scopes of an integration that cover one path clash.
clash-covers :
    (id : String) (n : List ℕ) (a b : ProtectedScopeRecord)
    → of_integration id a ≡ true
    → of_integration id b ≡ true
    → is_candidate path a ≡ true
    → is_candidate path b ≡ true
    → covers n a ≡ true
    → covers n b ≡ true
    → clash (some a) (some b) ≡ true
unfolding clash covers
clash-covers id n a b i j p q c d = ground (
  arith,
  eq_iff a.integration_id id,
  eq_iff b.integration_id id,
  eq_iff a.integration_id b.integration_id,
  i,
  j,
  path_overlap a.scope_type b.scope_type a.normalized_selector b.normalized_selector
      (ground (arith, p)) (ground (arith, q))
      (covered-overlap n a.normalized_selector b.normalized_selector c d),
)

module _ (id : String) (normalized : List ℕ) (w : World) (i : String)
    (row : ProtectedScopeRecord) where
  sole :
      (k : String) (r : ProtectedScopeRecord)
      → IsApart w.scopes
      → get w.scopes i ≡ some row
      → get w.scopes k ≡ some r
      → clash (some row) (some r) ≡ true
      → r ≡ row
  unfolding IsApart
  sole k r a f g c = ap (λ o. or_else o r) (sym g ∙ ap (get w.scopes) (sym same_key) ∙ f)
    where
      same_key : i ≡ k
      same_key = ground (arith, a i k, f, g, c, eq_iff i k)

  listed :
      str_eq id "" ≡ false
      → list_scopes id w
        ≡ sort_by (ascending (λ r. r.created_at)) (filter (of_integration id) (values w.scopes))
  unfolding list_scopes
  listed h = ground (arith, h)

  list_scopes-Only :
      str_eq id "" ≡ false
      → IsDict w.scopes
      → IsApart w.scopes
      → get w.scopes i ≡ some row
      → of_integration id row ≡ true
      → is_candidate path row ≡ true
      → covers normalized row ≡ true
      → All (Only normalized row) (filter (is_candidate path) (list_scopes id w))
  unfolding Only
  list_scopes-Only n u a g o q c =
      All-filter (Only normalized row) (is_candidate path) (list_scopes id w) (
        subst
          (All (λ (r : ProtectedScopeRecord). (is_candidate path r ≡ true) → Only normalized row r))
          (sym (listed n))
          (All-sort_by (ascending (λ r. r.created_at))
            (λ (r : ProtectedScopeRecord). (is_candidate path r ≡ true) → Only normalized row r)
            (filter (of_integration id) (values w.scopes))
            (All-filter
              (λ (r : ProtectedScopeRecord). (is_candidate path r ≡ true) → Only normalized row r)
              (of_integration id) (values w.scopes)
              (All-values
                (λ (r : ProtectedScopeRecord).
                  (of_integration id r ≡ true)
                  → (is_candidate path r ≡ true)
                  → Only normalized row r)
                w.scopes u
                (λ k r f o' q' c'.
                  sole k r a g f (clash-covers id normalized row r o o' q q' c c'))))))

  any-covers :
      str_eq id "" ≡ false
      → get w.scopes i ≡ some row
      → of_integration id row ≡ true
      → is_candidate path row ≡ true
      → covers normalized row ≡ true
      → any (covers normalized) (filter (is_candidate path) (list_scopes id w)) ≡ true
  any-covers n g o q c =
      any-filter (covers normalized) (is_candidate path) (list_scopes id w)
      ∙ any-list_scopes id
          (λ (r : ProtectedScopeRecord). is_candidate path r && covers normalized r) w
      ∙ ground (
        arith,
        n,
        any-values
            (λ (r : ProtectedScopeRecord).
              of_integration id r && (is_candidate path r && covers normalized r))
            w.scopes i row g (ground (arith, o, q, c)),
      )

match_scope_lem :
    (id : String) (selector : String) (w : World)
    → is_some (get_integration id w) ≡ true
    → match_scope id path selector w ≡ (
      ok (
          longest
            (normalize_selector path selector)
            (filter (is_candidate path) (list_scopes id w))
            none),
      w,
    )
unfolding match_scope get_integration_or_404 best_match
match_scope_lem id selector w h = ground (arith, h)

-- When no scope of an integration overlaps another of it, an enabled path scope of the integration that
-- covers the path is the one that `match_scope` returns, so that there is at most one.
pub match_scope-covers :
    (id selector : String) (w : World) (i : String) (row : ProtectedScopeRecord)
    → str_eq id "" ≡ false
    → is_some (get_integration id w) ≡ true
    → IsDict w.scopes
    → IsApart w.scopes
    → get w.scopes i ≡ some row
    → of_integration id row ≡ true
    → is_candidate path row ≡ true
    → covers (normalize_selector path selector) row ≡ true
    → match_scope id path selector w ≡ (ok (some row), w)
match_scope-covers id selector w i row n e u a g o q c =
    let p = normalize_selector path selector in
    match_scope_lem id selector w e
    ∙ ap (λ r. (ok r, w))
        (longest-found p row (filter (is_candidate path) (list_scopes id w))
          (list_scopes-Only id p w i row n u a g o q c) (any-covers id p w i row n g o q c))
