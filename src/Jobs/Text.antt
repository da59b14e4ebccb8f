-- ===== src/Jobs/Text.antt =====
-- The text of an error, cut to 4096 bytes of UTF-8: `_update` of jobs.py, and `_bounded_text` of
-- core/errors.py, which does the same.
use Prim.Native.String.{len}
use Prim.Native.String.len as len_clauses
use Prim.Native.Char.{len_utf8}
use text.Mathlib.TextPositions.{len-append}
use grag.Base.{
  ℕ, ◌-◌, ◌≤◌, ltb, leb, String, ◌<>◌, ◌≡◌, if◌then◌else◌, Bool-cases, inl, inr, arith, leb→le,
}

-- `encoded[:n].decode("utf-8", errors="ignore")`: the characters whose bytes all are among the
-- first `n`
unfoldable pub take_bytes : ℕ → String → String
take_bytes n String.[] = ""
take_bytes n (String.◌∷◌ c s) =
    let rest = take_bytes (n - len_utf8 c) s in if leb (len_utf8 c) n then String.◌∷◌ c rest else ""

unfoldable pub bounded_error : String → String
bounded_error error =
    if ltb 4096 (len error) then take_bytes 4096 error <> " [truncated]" else error

len-take_bytes : (n : ℕ) (s : String) → len (take_bytes n s) ≤ n
unfolding take_bytes
len-take_bytes n String.[] = omega arith
len-take_bytes n (String.◌∷◌ c s) = elim (Bool-cases (leb (len_utf8 c) n)) [
  | inl e ↦
      rw (e, len_clauses.cons) (omega (arith, leb→le _ _ e, len-take_bytes (n - len_utf8 c) s))
  | inr e ↦ rw e (omega arith)
]

-- A stored error text has at most 4108 bytes, and one of at most 4096 bytes is stored as it is.
pub bounded_error_bounds :
    (error : String)
    → (len (bounded_error error) ≤ 4108) × (len error ≤ 4096 → bounded_error error ≡ error)
unfolding bounded_error
bounded_error_bounds error = (
  ground (arith, len-append (take_bytes 4096 error) " [truncated]", len-take_bytes 4096 error),
  λ h. ground arith,
)
