-- ===== src/Transfer/ScanGate/Window.antt =====
-- The sliding window over the chunks against the search in the whole content.
use dsx_connect.Prelude.{
  ℕ, suc, ◌≡◌, refl, sym, ap, ◌∙◌, true, false, ◌||◌, List, [], ◌∷◌, ◌++◌, ◌-◌, ◌≤◌, ◌<◌, length,
  leb, leb→le, ◌⊎◌, subst, arith, append-nil, append_assoc, length-append, Bool-cases, inl, inr,
}
use dsx_connect.Transfer.Models.{TransferItem}
use dsx_connect.Transfer.ScanGate.{
  starts_with, contains, last_of, ScanState, take_chunk, scan_chunks, eicar_test_signature,
  empty_scan, StaticVerdictScanGate, static_decide, decide_after,
}

-- `b"".join(chunks)`
abbrev pub joined : List (List ℕ) → List ℕ
joined [] = []
joined (c ∷ cs) = c ++ joined cs

starts_with-append :
    (p s c : List ℕ) → length p ≤ length s → starts_with p (s ++ c) ≡ starts_with p s
starts_with-append [] s c h = refl
starts_with-append (a ∷ p) [] c h = ground (arith, h)
starts_with-append (a ∷ p) (x ∷ s) c h = ground (arith, h, starts_with-append p s c)

starts_with-grows : (p s c : List ℕ) → starts_with p s ≡ true → starts_with p (s ++ c) ≡ true
starts_with-grows [] s c h = refl
starts_with-grows (a ∷ p) [] c h = ground (arith, h)
starts_with-grows (a ∷ p) (x ∷ s) c h = ground (arith, h, starts_with-grows p s c)

contains-grows : (p s c : List ℕ) → contains p s ≡ true → contains p (s ++ c) ≡ true
unfolding contains
contains-grows p [] [] h = h
contains-grows p [] (x ∷ c) h = ground (arith, h, starts_with-grows p [] (x ∷ c))
contains-grows p (x ∷ s) c h =
    ground (arith, h, starts_with-grows p (x ∷ s) c, contains-grows p s c)

last_of-short : (n : ℕ) (s : List ℕ) → length s ≤ n → last_of n s ≡ s
unfolding last_of
last_of-short n [] h = refl
last_of-short n (x ∷ s) h = ground (arith, h)

last_of-long : (n x : ℕ) (s : List ℕ) → n < length (x ∷ s) → last_of n (x ∷ s) ≡ last_of n s
unfolding last_of
last_of-long n x s h = ground (arith, h)

-- Where the window is the whole, its search finds what the search before found.
absorbed : (p s c w : List ℕ) → w ≡ s → contains p (s ++ c) ≡ (contains p s || contains p (w ++ c))
absorbed p s c w h = grind (arith, h, contains-grows p s c)

contains-window_step :
    (p : List ℕ) (x : ℕ) (s c : List ℕ) (n : ℕ)
    → length p ≡ suc n
    → n < length (x ∷ s)
    → contains p (s ++ c) ≡ (contains p s || contains p (last_of n s ++ c))
    → contains p (x ∷ s ++ c) ≡ (contains p (x ∷ s) || contains p (last_of n (x ∷ s) ++ c))
unfolding contains
contains-window_step p x s c n h k ih =
    grind (arith, h, k, ih, starts_with-append p (x ∷ s) c, last_of-long n x s k)

last_of-window_step :
    (n x : ℕ) (s c : List ℕ)
    → n < length (x ∷ s)
    → last_of n (last_of n s ++ c) ≡ last_of n (s ++ c)
    → last_of n (last_of n (x ∷ s) ++ c) ≡ last_of n (x ∷ s ++ c)
last_of-window_step n x s c k ih =
    ap (λ w. last_of n (w ++ c)) (last_of-long n x s k)
    ∙ ih
    ∙ sym (last_of-long n x (s ++ c) (omega (arith, k, length-append s c)))

-- The window needs the last bytes only.
contains-window :
    (p s c : List ℕ) (n : ℕ)
    → length p ≡ suc n
    → contains p (s ++ c) ≡ (contains p s || contains p (last_of n s ++ c))
contains-window p [] c n h = absorbed p [] c (last_of n []) (last_of-short n [] (omega arith))
contains-window p (x ∷ s) c n h = elim (Bool-cases (leb (length (x ∷ s)) n)) [
  | inl e ↦
      absorbed p (x ∷ s) c (last_of n (x ∷ s))
        (last_of-short n (x ∷ s) (leb→le (length (x ∷ s)) n e))
  | inr e ↦ contains-window_step p x s c n h (ground (arith, e)) (contains-window p s c n h)
]

last_of-window : (n : ℕ) (s c : List ℕ) → last_of n (last_of n s ++ c) ≡ last_of n (s ++ c)
last_of-window n [] c = ap (λ w. last_of n (w ++ c)) (last_of-short n [] (omega arith))
last_of-window n (x ∷ s) c = elim (Bool-cases (leb (length (x ∷ s)) n)) [
  | inl e ↦ ap (λ w. last_of n (w ++ c)) (last_of-short n (x ∷ s) (leb→le (length (x ∷ s)) n e))
  | inr e ↦ last_of-window_step n x s c (ground (arith, e)) (last_of-window n s c)
]

-- The state of the loop after the content `s`.
abbrev Follows : List ℕ → List ℕ → ScanState → Type 0
Follows p s q =
    (q.bytes_scanned ≡ length s)
    × (q.eicar_detected ≡ contains p s)
    × ((q.eicar_detected ≡ true) ⊎ (q.tail ≡ last_of (length p - 1) s))

last_of_pred : (p : List ℕ) (n : ℕ) → length p ≡ suc n → length p - 1 ≡ n
last_of_pred p n h = omega (arith, h)

taken-scanned :
    (p s c : List ℕ) (q : ScanState)
    → q.bytes_scanned ≡ length s
    → (take_chunk p true q c).bytes_scanned ≡ length (s ++ c)
unfolding take_chunk
taken-scanned p s c q a = ground (arith, a, length-append s c)

Follows-found :
    (p s c : List ℕ) (q : ScanState)
    → q.bytes_scanned ≡ length s
    → q.eicar_detected ≡ contains p s
    → q.eicar_detected ≡ true
    → Follows p (s ++ c) (take_chunk p true q c)
unfolding take_chunk
Follows-found p s c q a b d = (
  taken-scanned p s c q a,
  ground (arith, b, d, contains-grows p s c (sym b ∙ d)),
  inl (ground (arith, d)),
)

Follows-going :
    (p s c : List ℕ) (n : ℕ) (q : ScanState)
    → length p ≡ suc n
    → q.bytes_scanned ≡ length s
    → q.eicar_detected ≡ contains p s
    → q.tail ≡ last_of (length p - 1) s
    → q.eicar_detected ≡ false
    → Follows p (s ++ c) (take_chunk p true q c)
unfolding take_chunk
Follows-going p s c n q h a b t d = (
  taken-scanned p s c q a,
  grind (arith, b, d, t, last_of_pred p n h, contains-window p s c n h),
  inr (grind (arith, d, t, last_of-window (length p - 1) s c)),
)

Follows-take :
    (p s c : List ℕ) (n : ℕ) (q : ScanState)
    → length p ≡ suc n
    → Follows p s q
    → Follows p (s ++ c) (take_chunk p true q c)
Follows-take p s c n q h (a, b, inl d) = Follows-found p s c q a b d
Follows-take p s c n q h (a, b, inr t) = elim (Bool-cases q.eicar_detected) [
  | inl d ↦ Follows-found p s c q a b d
  | inr d ↦ Follows-going p s c n q h a b t d
]

Follows-scan :
    (p s : List ℕ) (n : ℕ) (q : ScanState) (chunks : List (List ℕ))
    → length p ≡ suc n
    → Follows p s q
    → Follows p (s ++ joined chunks) (scan_chunks p true q chunks)
unfolding scan_chunks
Follows-scan p s n q [] h f = subst (λ x. Follows p x q) (sym (append-nil s)) f
Follows-scan p s n q (c ∷ chunks) h f =
    subst (λ x. Follows p x (scan_chunks p true q (c ∷ chunks))) (append_assoc s c (joined chunks))
      (Follows-scan p (s ++ c) n (take_chunk p true q c) chunks h (Follows-take p s c n q h f))

-- However a content is cut into chunks, the gate counts its bytes and finds the signature of the test
-- file exactly when the whole content has it, with a window of the last bytes of what went before.
pub scan_chunks-contains :
    (chunks : List (List ℕ))
    → ((scan_chunks eicar_test_signature true empty_scan chunks).bytes_scanned
        ≡ length (joined chunks))
      × ((scan_chunks eicar_test_signature true empty_scan chunks).eicar_detected
          ≡ contains eicar_test_signature (joined chunks))
unfolding contains last_of
scan_chunks-contains chunks =
    let f = Follows-scan eicar_test_signature [] 67 empty_scan chunks refl (refl, refl, inr refl) in
    (f.0, f.1)

decide_after-same :
    (gate : StaticVerdictScanGate) (item : TransferItem) (q r : ScanState)
    → q.bytes_scanned ≡ r.bytes_scanned
    → q.eicar_detected ≡ r.eicar_detected
    → decide_after gate item q ≡ decide_after gate item r
unfolding decide_after
decide_after-same gate item q r a b = grind (arith, a, b)

-- The decision of a gate that looks for the test file does not depend on how the content is cut.
pub static_decide-joined :
    (gate : StaticVerdictScanGate) (item : TransferItem) (chunks chunks' : List (List ℕ))
    → gate.detect_eicar_test_file ≡ true
    → joined chunks ≡ joined chunks'
    → static_decide gate item chunks ≡ static_decide gate item chunks'
unfolding static_decide
static_decide-joined gate item chunks chunks' h e =
    let f = scan_chunks-contains chunks in
    let f' = scan_chunks-contains chunks' in
    grind (
      arith,
      h,
      decide_after-same gate item (scan_chunks eicar_test_signature true empty_scan chunks)
          (scan_chunks eicar_test_signature true empty_scan chunks') (f.0 ∙ ap length e ∙ sym f'.0)
          (f.1 ∙ ap (contains eicar_test_signature) e ∙ sym f'.1),
    )
