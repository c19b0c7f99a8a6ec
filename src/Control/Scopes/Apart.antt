-- ===== src/Control/Scopes/Apart.antt =====
-- No two scopes of an integration overlap.
pub mod Kept
pub mod Reached
use dsx_connect.Prelude.{
  ℕ, suc, String, ◌≡◌, refl, sym, ap, ◌∙◌, Bool, true, false, not, ◌&&◌, ◌||◌, Option, none, some,
  List, [], ◌∷◌, arith, str_eq, eq_iff, eq_refl, if◌then◌else◌, filter, any, count, ◌==◌,
  Bool-cases, inl, inr,
}
use dsx_connect.Prelude.Dict.{Dict, get, put, get-put, values}
use dsx_connect.Prelude.Sort.{sort_by, count-sort_by, ascending}
use dsx_connect.Control.Selectors.{
  ScopeType, path, identity, selectors_overlap, selectors_overlap_comm, normalize_selector,
  is_identity,
}
use dsx_connect.Control.Models.{ProtectedScopeCreate, ProtectedScopeUpdate, ProtectedScopeRecord}
use dsx_connect.Control.World.{World, Env, M, Result, ok, raised}
use dsx_connect.Control.Repository.{list_scopes, of_integration}
use dsx_connect.Control.Scopes.{create_scope, update_scope, same_type, conflicts, validate_overlap}

-- Do the two scopes overlap in one integration?
unfoldable pub clash : Option ProtectedScopeRecord → Option ProtectedScopeRecord → Bool
unfolding selectors_overlap
clash none b = false
clash (some a) none = false
clash (some a) (some b) =
    str_eq a.integration_id b.integration_id
    && (same_type a.scope_type b.scope_type
        && selectors_overlap b.scope_type a.normalized_selector b.normalized_selector)

-- No scope overlaps another one.
unfoldable pub IsApart : Dict ProtectedScopeRecord → Type 0
unfolding get clash
IsApart d = (i j : String) → (str_eq i j || not (clash (get d i) (get d j))) ≡ true

typed_overlap_comm :
    (s t : ScopeType) (l r : List ℕ)
    → (same_type s t && selectors_overlap t l r) ≡ (same_type t s && selectors_overlap s r l)
typed_overlap_comm path path l r = selectors_overlap_comm path l r
typed_overlap_comm path identity l r = refl
typed_overlap_comm identity path l r = refl
typed_overlap_comm identity identity l r = selectors_overlap_comm identity l r

pub clash_comm : (a b : Option ProtectedScopeRecord) → clash a b ≡ clash b a
unfolding clash
clash_comm none none = refl
clash_comm none (some b) = refl
clash_comm (some a) none = refl
clash_comm (some a) (some b) = grind (
  arith,
  typed_overlap_comm a.scope_type b.scope_type a.normalized_selector b.normalized_selector,
  eq_iff a.integration_id b.integration_id,
  eq_iff b.integration_id a.integration_id,
)

-- A stored row that satisfies `p` is found among the values.
pub any-values :
    (p : ProtectedScopeRecord → Bool) (d : Dict ProtectedScopeRecord) (k : String)
    (row : ProtectedScopeRecord)
    → get d k ≡ some row
    → p row ≡ true
    → any p (values d) ≡ true
unfolding get values
any-values p [] k row h q = ground (arith, h)
any-values p ((j, v) ∷ d) k row h q = grind (arith, h, q, any-values p d k row)

pub any-filter :
    (p q : ProtectedScopeRecord → Bool) (rows : List ProtectedScopeRecord)
    → any p (filter q rows) ≡ any (λ (r : ProtectedScopeRecord). q r && p r) rows
any-filter p q [] = refl
any-filter p q (r ∷ rows) = ground (arith, any-filter p q rows)

any-count :
    (p : ProtectedScopeRecord → Bool) (rows : List ProtectedScopeRecord)
    → any p rows ≡ not (count p rows == 0)
any-count p [] = refl
any-count p (r ∷ rows) = ground (arith, any-count p rows)

any-sort_by :
    (before : ProtectedScopeRecord → ProtectedScopeRecord → Bool) (p : ProtectedScopeRecord → Bool)
    (rows : List ProtectedScopeRecord)
    → any p (sort_by before rows) ≡ any p rows
any-sort_by before p rows =
    any-count p (sort_by before rows)
    ∙ ap (λ n. not (n == 0)) (count-sort_by before p rows)
    ∙ sym (any-count p rows)

pub any-list_scopes :
    (id : String) (p : ProtectedScopeRecord → Bool) (w : World)
    → any p (list_scopes id w) ≡ (
        if str_eq id ""
        then any p (values w.scopes)
        else any (λ (r : ProtectedScopeRecord). of_integration id r && p r) (values w.scopes))
unfolding list_scopes
any-list_scopes id p w =
    any-sort_by (ascending (λ row. row.created_at)) p
      (if str_eq id "" then values w.scopes else filter (of_integration id) (values w.scopes))
    ∙ grind (arith, any-filter p (of_integration id) (values w.scopes))

-- What the check of an overlap passes over: a stored row of the integration that does not conflict.
unlisted :
    (id : String) (p : ProtectedScopeRecord → Bool) (w : World) (k : String)
    (row : ProtectedScopeRecord)
    → get w.scopes k ≡ some row
    → of_integration id row ≡ true
    → any p (list_scopes id w) ≡ false
    → p row ≡ false
unlisted id p w k row g o h = elim (Bool-cases (p row)) [
  | inr e ↦ e
  | inl e ↦ ground (
    arith,
    h,
    any-list_scopes id p w,
    any-values p w.scopes k row g e,
    any-values (λ (r : ProtectedScopeRecord). of_integration id r && p r) w.scopes k row g
        (ground (arith, o, e)),
  )
]

-- A new row that conflicts with no stored one of its integration clashes with none.
clash-unlisted :
    (row : ProtectedScopeRecord) (w : World) (j : String) (o : Option ProtectedScopeRecord)
    → get w.scopes j ≡ o
    → any (conflicts row.scope_type row.normalized_selector none) (list_scopes row.integration_id w)
      ≡ false
    → clash o (some row) ≡ false
unfolding clash conflicts
clash-unlisted row w j none g h = refl
clash-unlisted row w j (some b) g h =
    elim (Bool-cases (str_eq b.integration_id row.integration_id)) [
      | inr e ↦ ground (arith, e)
      | inl e ↦ ground (
        arith,
        e,
        unlisted row.integration_id (conflicts row.scope_type row.normalized_selector none) w j b g
            e h,
      )
    ]

pub IsApart-put :
    (row : ProtectedScopeRecord) (k : String) (w : World)
    → IsApart w.scopes
    → any (conflicts row.scope_type row.normalized_selector none) (list_scopes row.integration_id w)
      ≡ false
    → IsApart (put w.scopes k row)
unfolding IsApart
IsApart-put row k w a h i j = grind (
  arith,
  get-put w.scopes k i row,
  get-put w.scopes k j row,
  a i j,
  clash-unlisted row w i (get w.scopes i) refl h,
  clash-unlisted row w j (get w.scopes j) refl h,
  clash_comm (some row) (get w.scopes j),
  eq_iff k i,
  eq_iff k j,
  eq_iff i j,
)
