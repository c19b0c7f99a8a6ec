-- ===== src/Control/Selectors/Cover.antt =====
-- Two selectors that cover one path overlap.
use dsx_connect.Prelude.{
  ℕ, suc, ◌≡◌, refl, sym, true, ◌||◌, List, [], ◌∷◌, ◌++◌, ◌≤◌, ◌<◌, inl, inr, arith, length,
  Bool-cases, length-append, ltb, ltb→lt,
}
use dsx_connect.Prelude.Text.{same_codes}
use dsx_connect.Control.Selectors.{path, rstrip_slash, starts_with, as_prefix, selectors_overlap}

starts_with-rstrip : (s : List ℕ) → starts_with s (rstrip_slash s) ≡ true
unfolding rstrip_slash
starts_with-rstrip [] = refl
starts_with-rstrip (c ∷ s) = ground (arith, starts_with-rstrip s)

starts_with_trans :
    (s p q : List ℕ) → starts_with s p ≡ true → starts_with p q ≡ true → starts_with s q ≡ true
starts_with_trans s p [] h k = refl
starts_with_trans s [] (z ∷ q) h k = ground (arith, k)
starts_with_trans [] (y ∷ p) (z ∷ q) h k = ground (arith, h)
starts_with_trans (x ∷ s) (y ∷ p) (z ∷ q) h k = ground (arith, h, k, starts_with_trans s p q)

starts_with-comparable :
    (s p q : List ℕ)
    → starts_with s p ≡ true
    → starts_with s q ≡ true
    → length q ≤ length p
    → starts_with p q ≡ true
starts_with-comparable s p [] h k l = refl
starts_with-comparable s [] (z ∷ q) h k l = ground (arith, l)
starts_with-comparable [] (y ∷ p) (z ∷ q) h k l = ground (arith, h)
starts_with-comparable (x ∷ s) (y ∷ p) (z ∷ q) h k l =
    ground (arith, h, k, l, starts_with-comparable s p q)

starts_with-snoc :
    (s p : List ℕ)
    → starts_with (s ++ (47 ∷ [])) (p ++ (47 ∷ [])) ≡ true
    → length p < length s
    → starts_with s (p ++ (47 ∷ [])) ≡ true
starts_with-snoc [] p h l = ground (arith, l)
starts_with-snoc (x ∷ []) [] h l = ground (arith, h)
starts_with-snoc (x ∷ y ∷ s) [] h l = ground (arith, h)
starts_with-snoc (x ∷ s) (y ∷ p) h l = ground (arith, h, l, starts_with-snoc s p)

starts_with-same :
    (s p : List ℕ)
    → starts_with (s ++ (47 ∷ [])) (p ++ (47 ∷ [])) ≡ true
    → length p ≡ length s
    → same_codes s p ≡ true
starts_with-same [] [] h l = refl
starts_with-same [] (y ∷ p) h l = ground (arith, l)
starts_with-same (x ∷ s) [] h l = ground (arith, l)
starts_with-same (x ∷ s) (y ∷ p) h l = ground (arith, h, l, starts_with-same s p)

starts_with-append : (s p t : List ℕ) → starts_with s p ≡ true → starts_with (s ++ t) p ≡ true
starts_with-append s [] t h = refl
starts_with-append [] (y ∷ p) t h = ground (arith, h)
starts_with-append (x ∷ s) (y ∷ p) t h = ground (arith, h, starts_with-append s p t)

starts_with_refl : (s : List ℕ) → starts_with s s ≡ true
starts_with_refl [] = refl
starts_with_refl (x ∷ s) = ground (arith, starts_with_refl s)

same_codes-starts : (s p t : List ℕ) → same_codes s p ≡ true → starts_with (s ++ t) (p ++ t) ≡ true
same_codes-starts [] [] t h = starts_with_refl t
same_codes-starts [] (y ∷ p) t h = ground (arith, h)
same_codes-starts (x ∷ s) [] t h = ground (arith, h)
same_codes-starts (x ∷ s) (y ∷ p) t h = ground (arith, h, same_codes-starts s p t)

-- Either nothing is stripped, or what is begins with a slash.
rstrip-cases : (s : List ℕ) → (same_codes s (rstrip_slash s) || starts_with s (as_prefix s)) ≡ true
unfolding rstrip_slash as_prefix
rstrip-cases [] = refl
rstrip-cases (c ∷ s) = ground (arith, rstrip-cases s)

pub same_codes-eq : (s p : List ℕ) → same_codes s p ≡ true → s ≡ p
same_codes-eq [] [] h = refl
same_codes-eq [] (y ∷ p) h = ground (arith, h)
same_codes-eq (x ∷ s) [] h = ground (arith, h)
same_codes-eq (x ∷ s) (y ∷ p) h = ground (arith, h, same_codes-eq s p)

same_codes_refl : (s : List ℕ) → same_codes s s ≡ true
same_codes_refl [] = refl
same_codes_refl (x ∷ s) = ground (arith, same_codes_refl s)

-- `n == s.rstrip("/") or n.startswith(s.rstrip("/") + "/")`, in one test
covered-prefix :
    (n s : List ℕ)
    → (same_codes n (rstrip_slash s) || starts_with n (as_prefix s)) ≡ true
    → starts_with (n ++ (47 ∷ [])) (as_prefix s) ≡ true
unfolding as_prefix
covered-prefix n s h = elim (Bool-cases (same_codes n (rstrip_slash s))) [
  | inl e ↦ same_codes-starts n (rstrip_slash s) (47 ∷ []) e
  | inr e ↦ starts_with-append n (rstrip_slash s ++ (47 ∷ [])) (47 ∷ []) (ground (arith, h, e))
]

length-snoc : (s : List ℕ) → length (s ++ (47 ∷ [])) ≡ suc (length s)
length-snoc s = omega (arith, length-append s (47 ∷ []))

-- The shorter one is a prefix of the longer one.
shorter-prefix :
    (n a b : List ℕ)
    → starts_with n (as_prefix a) ≡ true
    → starts_with n (as_prefix b) ≡ true
    → length (rstrip_slash a) < length (rstrip_slash b)
    → starts_with b (as_prefix a) ≡ true
unfolding as_prefix
shorter-prefix n a b h k l =
    starts_with_trans b (rstrip_slash b) (rstrip_slash a ++ (47 ∷ [])) (starts_with-rstrip b) (
      starts_with-snoc (rstrip_slash b) (rstrip_slash a)
        (starts_with-comparable n (rstrip_slash b ++ (47 ∷ [])) (rstrip_slash a ++ (47 ∷ [])) k h
          (omega (arith, l, length-snoc (rstrip_slash a), length-snoc (rstrip_slash b))))
        l)

equal-overlap : (a b : List ℕ) → rstrip_slash a ≡ rstrip_slash b → selectors_overlap path a b ≡ true
unfolding selectors_overlap as_prefix
equal-overlap a b e = grind (
  arith,
  e,
  rstrip-cases a,
  rstrip-cases b,
  same_codes-eq a (rstrip_slash a),
  same_codes-eq b (rstrip_slash b),
  same_codes_refl a,
)

equal-prefix :
    (n a b : List ℕ)
    → starts_with n (as_prefix a) ≡ true
    → starts_with n (as_prefix b) ≡ true
    → length (rstrip_slash a) ≡ length (rstrip_slash b)
    → rstrip_slash a ≡ rstrip_slash b
unfolding as_prefix
equal-prefix n a b h k l = same_codes-eq (rstrip_slash a) (rstrip_slash b) (
    starts_with-same (rstrip_slash a) (rstrip_slash b)
      (starts_with-comparable n (rstrip_slash a ++ (47 ∷ [])) (rstrip_slash b ++ (47 ∷ [])) h k
        (omega (arith, l, length-snoc (rstrip_slash a), length-snoc (rstrip_slash b))))
      (sym l))

pub covered-overlap :
    (n a b : List ℕ)
    → (same_codes n (rstrip_slash a) || starts_with n (as_prefix a)) ≡ true
    → (same_codes n (rstrip_slash b) || starts_with n (as_prefix b)) ≡ true
    → selectors_overlap path a b ≡ true
unfolding selectors_overlap
covered-overlap n a b h k =
    let p = covered-prefix n a h in
    let q = covered-prefix n b k in
    elim (Bool-cases (ltb (length (rstrip_slash a)) (length (rstrip_slash b)))) [
      | inl e ↦ ground (
        arith,
        shorter-prefix (n ++ (47 ∷ [])) a b p q
            (ltb→lt (length (rstrip_slash a)) (length (rstrip_slash b)) e),
      )
      | inr e ↦ elim (Bool-cases (ltb (length (rstrip_slash b)) (length (rstrip_slash a)))) [
        | inl f ↦ ground (
          arith,
          shorter-prefix (n ++ (47 ∷ [])) b a q p
              (ltb→lt (length (rstrip_slash b)) (length (rstrip_slash a)) f),
        )
        | inr f ↦ equal-overlap a b (equal-prefix (n ++ (47 ∷ [])) a b p q (ground (arith, e, f)))
      ]
    ]
