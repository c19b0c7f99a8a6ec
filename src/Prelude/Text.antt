-- ===== src/Prelude/Text.antt =====
-- Python's `str.strip().lower()` over the code points of a text, for ASCII, and equality after it.
use Prim.Native.Nat.{ℕ, zero, suc, ◌+◌, ◌-◌}
use Prim.Native.Char.{Char, code}
use Prim.Native.String.{String}
use mathlib.Core.Bool.{Bool, true, false, ◌&&◌, ◌||◌}
use mathlib.Core.Option.{Option, none, some}
use mathlib.Core.List.{List, [], ◌∷◌, map}
use text.Mathlib.Text.{starts_with}
use dsx_connect.Prelude.Tests.{if◌then◌else◌, leb, ◌==◌}

abbrev pub codes : String → List ℕ
codes String.[] = []
codes (String.◌∷◌ c s) = code c ∷ codes s

abbrev is_space : ℕ → Bool
is_space c = leb 9 c && leb c 13 || leb 28 c && leb c 32

abbrev drop_spaces : String → String
drop_spaces String.[] = String.[]
drop_spaces (String.◌∷◌ c s) =
    let rest : String = drop_spaces s in if is_space (code c) then rest else String.◌∷◌ c s

abbrev reverse_onto : String → String → String
reverse_onto acc String.[] = acc
reverse_onto acc (String.◌∷◌ c s) = reverse_onto (String.◌∷◌ c acc) s

-- `s.strip()`
unfoldable pub strip : String → String
strip s = reverse_onto String.[] (drop_spaces (reverse_onto String.[] (drop_spaces s)))

abbrev lower_code : ℕ → ℕ
lower_code c = if leb b'A' c && leb c b'Z' then c + 32 else c

unfoldable pub lower : List ℕ → List ℕ
lower cs = map lower_code cs

abbrev pub same_codes : List ℕ → List ℕ → Bool
same_codes [] [] = true
same_codes (a ∷ as') (b ∷ bs) = a == b && same_codes as' bs
same_codes _ _ = false

-- `s.strip().lower()`
unfoldable pub normalized : String → List ℕ
unfolding strip lower
normalized s = lower (codes (strip s))

-- The n-th character of a text, or `c` where there is none.
abbrev nth : Char → ℕ → String → Char
nth c n String.[] = c
nth c zero (String.◌∷◌ d s) = d
nth c (suc n) (String.◌∷◌ d s) = nth c n s

abbrev lower_char : Char → Char
lower_char c =
    if leb b'A' (code c) && leb (code c) b'Z'
    then nth c (code c - b'A') "abcdefghijklmnopqrstuvwxyz"
    else c

-- `s.lower()`
unfoldable pub lower_text : String → String
lower_text String.[] = String.[]
lower_text (String.◌∷◌ c s) = String.◌∷◌ (lower_char c) (lower_text s)

-- `s.strip().lower()`
unfoldable pub lower_strip : String → String
unfolding strip lower_text
lower_strip s = lower_text (strip s)

-- `part in s`
unfoldable pub occurs_in : String → String → Bool
occurs_in part String.[] = starts_with String.[] part
occurs_in part (String.◌∷◌ c s) = starts_with (String.◌∷◌ c s) part || occurs_in part s

-- `s.endswith(end)`
unfoldable pub ends_with : String → String → Bool
ends_with s end = starts_with (reverse_onto String.[] s) (reverse_onto String.[] end)

-- The texts of one character each, as an iteration over a text gives them.
unfoldable pub chars : String → List String
chars String.[] = []
chars (String.◌∷◌ c s) = String.◌∷◌ c String.[] ∷ chars s

-- `s.rstrip("/")`
abbrev drop_slashes : String → String
drop_slashes String.[] = String.[]
drop_slashes (String.◌∷◌ c s) =
    let rest : String = drop_slashes s in if code c == b'/' then rest else String.◌∷◌ c s

unfoldable pub rstrip_slashes : String → String
rstrip_slashes s = reverse_onto String.[] (drop_slashes (reverse_onto String.[] s))

-- `s.strip("/")`
unfoldable pub strip_slashes : String → String
unfolding rstrip_slashes
strip_slashes s = drop_slashes (rstrip_slashes s)

-- The characters before the first slash, if there is one, and those after it.
abbrev before_slash : String → String × Option String
before_slash String.[] = (String.[], none)
before_slash (String.◌∷◌ c s) =
    let rest : String × Option String = before_slash s in
    if code c == b'/' then (String.[], some s) else (String.◌∷◌ c rest.0, rest.1)

-- `s.split("/", 1)`: the second part is missing where there is no slash.
unfoldable pub split_slash : String → String × Option String
split_slash s = before_slash s

abbrev last_part : String → String → String
last_part acc String.[] = reverse_onto String.[] acc
last_part acc (String.◌∷◌ c s) =
    last_part (if code c == b'/' then String.[] else String.◌∷◌ c acc) s

-- `posixpath.basename(s)`
unfoldable pub basename : String → String
basename s = last_part String.[] s

abbrev is_alnum : ℕ → Bool
is_alnum c = leb b'0' c && leb c b'9' || leb b'A' c && leb c b'Z' || leb b'a' c && leb c b'z'

-- `"".join(ch for ch in s if ch.isalnum())`
unfoldable pub only_alnum : String → String
only_alnum String.[] = String.[]
only_alnum (String.◌∷◌ c s) =
    let rest : String = only_alnum s in if is_alnum (code c) then String.◌∷◌ c rest else rest

-- `s[:n]`
unfoldable pub take_text : ℕ → String → String
take_text zero s = String.[]
take_text (suc n) String.[] = String.[]
take_text (suc n) (String.◌∷◌ c s) = String.◌∷◌ c (take_text n s)

-- `s[n:]`
unfoldable pub drop_text : ℕ → String → String
drop_text zero s = s
drop_text (suc n) String.[] = String.[]
drop_text (suc n) (String.◌∷◌ c s) = drop_text n s

-- `s.startswith(prefix)`
abbrev pub has_prefix : String → String → Bool
has_prefix s prefix = starts_with s prefix

abbrev drop_to_slash : String → Option String
drop_to_slash String.[] = none
drop_to_slash (String.◌∷◌ c s) =
    let rest : Option String = drop_to_slash s in if code c == b'/' then some s else rest

-- `s.rsplit("/", 1)[0]`
unfoldable pub before_last_slash : String → String
before_last_slash s = elim (drop_to_slash (reverse_onto String.[] s)) [
  | none ↦ s
  | some r ↦ reverse_onto String.[] r
]
