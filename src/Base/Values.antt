-- ===== src/Base/Values.antt =====
-- The values of a property map (`dict[str, Any]` read from the database), and what Python's own
-- functions make of them, which are parameters of the model.
use Prim.Native.Nat.{ℕ, zero, suc}
use Prim.Native.String.{String}
use mathlib.Core.Bool.{Bool, true, false, not}
use mathlib.Core.Option.{Option, none, some}
use text.Mathlib.Text.{◌==◌}
use grag.Base.Dict.{Dict, lookup}

-- `negative n` is -(n + 1). `other` is any value of another kind (a float, a list, a map, a date),
-- with its truth value and a name for it.
pub data Value : Type 0 where
  null : Value
  flag : Bool → Value
  int negative : ℕ → Value
  str : String → Value
  other : Bool → String → Value

abbrev pub Props : Type 0
Props = Dict Value

-- `props.get(key)`
abbrev pub get : Props → String → Value
get props key = elim (lookup key props) [ none ↦ null | some v ↦ v ]

abbrev pub is_null : Value → Bool
is_null null = true
is_null (flag b) = false
is_null _ = false

-- `bool(value)`
abbrev pub truthy : Value → Bool
truthy null = false
truthy (flag b) = b
truthy (int zero) = false
truthy (int (suc n)) = true
truthy (negative n) = true
truthy (str s) = not (s == "")
truthy (other t name) = t

-- `type(value) is int and value > 0`
abbrev pub is_positive_int : Value → Bool
is_positive_int (int (suc n)) = true
is_positive_int _ = false

-- Functions of Python and its `json`: `json.dumps(v, ensure_ascii=False, default=str)`, or `none`
-- where it raises TypeError or ValueError, `json.dumps` of a `str`, `str(v)` as `format`, and `v.isoformat()`
-- of a date or a time.
pub record Python : Type 0 where
  pub dumps : Value → Option String
  pub dumps_text : String → String
  pub format : Value → String
  pub isoformat : Value → Option String
