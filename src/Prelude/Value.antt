-- ===== src/Prelude/Value.antt =====
-- The JSON values that payloads, results and errors hold (`dict[str, Any]`), and Python's reading
-- of them: `d.get(k)`, truth, `x or y`, `{**a, **b}`.
use Prim.Native.Nat.{ℕ}
use Prim.Native.String.{String}
use mathlib.Core.Bool.{Bool, true, false, not}
use mathlib.Core.Option.{Option, none, some}
use text.Mathlib.Text.{◌==◌}
use dsx_connect.Prelude.Tests.{if◌then◌else◌, ◌==◌ as nat_eq}

mutual
  pub data Value : Type 0 where
    null : Value
    bool : Bool → Value
    num : ℕ → Value
    str : String → Value
    arr : Items → Value
    obj : Fields → Value

  pub data Items : Type 0 where
    no_items : Items
    item : Value → Items → Items

  -- A `dict[str, Any]`.
  pub data Fields : Type 0 where
    no_fields : Fields
    field : String → Value → Fields → Fields

-- `d.get(k)`: `None` is `null`.
unfoldable pub get_field : Fields → String → Value
get_field no_fields k = null
get_field (field j v d) k = if j == k then v else get_field d k

-- `k in d`
unfoldable pub has_field : Fields → String → Bool
has_field no_fields k = false
has_field (field j v d) k = if j == k then true else has_field d k

unfoldable pub put_field : Fields → String → Value → Fields
put_field no_fields k v = field k v no_fields
put_field (field j w d) k v = if j == k then field j v d else field j w (put_field d k v)

-- `{**a, **b}`
unfoldable pub merge : Fields → Fields → Fields
merge a no_fields = a
merge a (field k v b) = merge (put_field a k v) b

-- `d.setdefault(k, v)`, the dict that it leaves
unfoldable pub set_default : Fields → String → Value → Fields
unfolding has_field put_field
set_default d k v = if has_field d k then d else put_field d k v

-- `bool(v)`
abbrev pub truthy : Value → Bool
truthy null = false
truthy (bool b) = b
truthy (num n) = not (nat_eq n 0)
truthy (str s) = not (s == "")
truthy (arr no_items) = false
truthy (arr (item v vs)) = true
truthy (obj no_fields) = false
truthy (obj (field k v d)) = true

abbrev pub has_fields : Fields → Bool
has_fields no_fields = false
has_fields (field k v d) = true

-- `a or b`
abbrev pub or_value : Value → Value → Value
or_value a b = if truthy a then a else b

-- `v or ""` where a method of texts is then called on it: `none` if the value has no such method.
abbrev pub text_or_empty : Value → Option String
text_or_empty (str s) = some s
text_or_empty v = if truthy v then none else some ""

-- `v is True`
abbrev pub is_true : Value → Bool
is_true (bool b) = b
is_true _ = false

abbrev pub is_false : Value → Bool
is_false (bool b) = not b
is_false _ = false

-- `v == s` for a text `s`
abbrev pub is_text : Value → String → Bool
is_text (str t) s = t == s
is_text _ s = false

-- A value where a dict is expected: `v or {}`.
abbrev pub as_fields : Value → Fields
as_fields (obj d) = d
as_fields _ = no_fields

-- `d or {}` for `d : dict | None`
abbrev pub or_empty : Option Fields → Fields
or_empty none = no_fields
or_empty (some d) = d
