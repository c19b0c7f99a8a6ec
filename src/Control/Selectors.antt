-- ===== src/Control/Selectors.antt =====
-- dsx_connect_ng/dsx_connect_ng/control_plane/service.py: selectors of scopes, as lists of the codes of
-- their characters.
pub mod Cover
use dsx_connect.Prelude.{
  ℕ, String, ◌≡◌, refl, Bool, true, false, ◌&&◌, ◌||◌, List, [], ◌∷◌, ◌++◌, ◌==◌, if◌then◌else◌,
  arith, is_empty,
}
use dsx_connect.Prelude.Text.{codes, strip, same_codes}

pub data ScopeType : Type 0 where
  path identity : ScopeType

abbrev pub is_identity : ScopeType → Bool
is_identity identity = true
is_identity path = false

-- A slash, after `.replace("\\", "/")`
abbrev is_slash : ℕ → Bool
is_slash c = c == 47 || c == 92

-- `[part for part in value.replace("\\", "/").split("/") if part]`; the part that is being read comes
-- first, without those that are empty.
add_part : List ℕ → List (List ℕ) → List (List ℕ)
add_part [] ps = ps
add_part (c ∷ cs) ps = (c ∷ cs) ∷ ps

take_part : List ℕ → List ℕ
take_part [] = []
take_part (c ∷ cs) = let rest : List ℕ = take_part cs in if is_slash c then [] else c ∷ rest

-- The parts after the first slash.
unfoldable pub parts_after : List ℕ → List (List ℕ)
unfolding add_part take_part
parts_after [] = []
parts_after (c ∷ cs) =
    let rest : List (List ℕ) = parts_after cs in
    if is_slash c then add_part (take_part cs) rest else rest

-- `"/".join(parts)`
abbrev pub join_parts : List (List ℕ) → List ℕ
join_parts [] = []
join_parts (p ∷ []) = p
join_parts (p ∷ q ∷ ps) = p ++ (47 ∷ join_parts (q ∷ ps))

-- `normalize_selector`
unfoldable pub normalize_selector : ScopeType → String → List ℕ
unfolding strip parts_after
normalize_selector identity selector = codes (strip selector)
normalize_selector path selector = 47 ∷ join_parts (parts_after (47 ∷ codes (strip selector)))

-- `s.rstrip("/")`
unfoldable pub rstrip_slash : List ℕ → List ℕ
rstrip_slash [] = []
rstrip_slash (c ∷ cs) =
    let rest : List ℕ = rstrip_slash cs in if is_empty rest && c == 47 then [] else c ∷ rest

abbrev pub starts_with : List ℕ → List ℕ → Bool
starts_with xs [] = true
starts_with [] (p ∷ ps) = false
starts_with (x ∷ xs) (p ∷ ps) = x == p && starts_with xs ps

-- `s.rstrip("/") + "/"`
abbrev pub as_prefix : List ℕ → List ℕ
unfolding rstrip_slash
as_prefix s = rstrip_slash s ++ (47 ∷ [])

-- `selectors_overlap`
unfoldable pub selectors_overlap : ScopeType → List ℕ → List ℕ → Bool
unfolding as_prefix
selectors_overlap identity left right = same_codes left right
selectors_overlap path left right =
    same_codes left right
    || (starts_with left (as_prefix right) || starts_with right (as_prefix left))

same_codes_comm : (xs ys : List ℕ) → same_codes xs ys ≡ same_codes ys xs
same_codes_comm [] [] = refl
same_codes_comm [] (y ∷ ys) = refl
same_codes_comm (x ∷ xs) [] = refl
same_codes_comm (x ∷ xs) (y ∷ ys) = ground (arith, same_codes_comm xs ys)

pub selectors_overlap_comm :
    (t : ScopeType) (l r : List ℕ) → selectors_overlap t l r ≡ selectors_overlap t r l
unfolding selectors_overlap
selectors_overlap_comm identity l r = same_codes_comm l r
selectors_overlap_comm path l r = ground (arith, same_codes_comm l r)

normalize_runs : normalize_selector path " \\shared//a/ " ≡ codes "/shared/a"
unfolding normalize_selector
normalize_runs = refl

overlap_runs : selectors_overlap path (codes "/a") (codes "/a/b") ≡ true
unfolding selectors_overlap
overlap_runs = refl
