-- ===== src/Prelude/Decimal.antt =====
-- Python's `str` of a number, and `int` of a text of ASCII digits.
use Prim.Native.Nat.{ℕ, zero, suc, ◌+◌, ◌-◌, ◌*◌, ◌/◌, ◌%◌}
use Prim.Native.String.{String, ◌++◌}
use mathlib.Core.Path.{◌≡◌, refl}
use mathlib.Core.Option.{Option, none, some}
use mathlib.Core.Bool.{◌&&◌}
use mathlib.Core.List.{List, [], ◌∷◌}
use dsx_connect.Prelude.Tests.{if◌then◌else◌, ltb, leb, ◌==◌}
use dsx_connect.Prelude.Text.{codes, strip}

abbrev digit : ℕ → String
digit n =
    if n == 0
    then "0"
    else if n == 1
    then "1"
    else if n == 2
    then "2"
    else if n == 3
    then "3"
    else if n == 4
    then "4"
    else if n == 5
    then "5"
    else if n == 6
    then "6"
    else if n == 7
    then "7"
    else if n == 8
    then "8"
    else "9"

-- The digits of `n` before `acc`; a fuel of `n` is enough.
digits_onto : ℕ → ℕ → String → String
digits_onto zero n acc = digit (n % 10) ++ acc
digits_onto (suc f) n acc =
    let rest : String = digits_onto f (n / 10) (digit (n % 10) ++ acc) in
    if ltb n 10 then digit n ++ acc else rest

-- `str(n)`
unfoldable pub decimal : ℕ → String
unfolding digits_onto
decimal n = digits_onto n n ""

read_digits : ℕ → List ℕ → Option ℕ
read_digits n [] = some n
read_digits n (c ∷ cs) =
    let rest : Option ℕ = read_digits (n * 10 + (c - 48)) cs in
    if leb 48 c && leb c 57 then rest else none

read_codes : List ℕ → Option ℕ
unfolding read_digits
read_codes [] = none
read_codes (c ∷ cs) = read_digits 0 (c ∷ cs)

-- `int(s)`; `none` is a `ValueError`.
unfoldable pub parse_int : String → Option ℕ
unfolding read_codes strip
parse_int s = read_codes (codes (strip s))

decimal_runs : decimal 1205 ≡ "1205"
unfolding decimal
decimal_runs = refl

parse_int_runs : parse_int " 042 " ≡ some 42
unfolding parse_int
parse_int_runs = refl
