-- ===== src/Identifiers.antt =====
-- src/grag/core/ident.py: `validate_identifier`. `str.upper` is a parameter.
mod Tests
use grag.Base.{
  ℕ, String, List, [], ◌∷◌, Bool, true, false, not, ◌&&◌, ◌||◌, leb, if◌then◌else◌, str_eq, ◌≡◌,
  Bool-cases, inl, inr, arith, refl, ap, eq_iff,
}
use grag.Base.{◌==◌ as nat_eq}
use grag.Base.Dict.{contains}
use grag.Base.Result.{schema_error, Result, returned, raised}
use grag.Graph.{make_node_id, split_node_id}
use grag.Graph.Ids.{colon_free, split_node_id-make_node_id}
use Prim.Native.String
use Prim.Native.Char.{Char, code}

abbrev pub reserved_keywords : List String
reserved_keywords =
    "ACYCLIC" ∷ "ALL" ∷ "AND" ∷ "ANY" ∷ "ASC" ∷ "ASCENDING" ∷ "CASE" ∷ "CAST" ∷ "COLUMN"
    ∷ "COMMIT_SKIP_CHECKPOINT" ∷ "CREATE" ∷ "CSR" ∷ "DBTYPE" ∷ "DEFAULT" ∷ "DESC" ∷ "DESCENDING"
    ∷ "DISTINCT" ∷ "ELSE" ∷ "END" ∷ "ENDS" ∷ "EXISTS" ∷ "FALSE" ∷ "FOR" ∷ "GLOB" ∷ "GROUP"
    ∷ "HEADERS" ∷ "HINT" ∷ "IN" ∷ "INDEX" ∷ "INSTALL" ∷ "JOIN" ∷ "MACRO" ∷ "MULTI_JOIN" ∷ "NONE"
    ∷ "NOT" ∷ "NULL" ∷ "ON" ∷ "ONLY" ∷ "OPTIONAL" ∷ "OPTIONS" ∷ "OR" ∷ "ORDER" ∷ "PRIMARY"
    ∷ "PROFILE" ∷ "ROLLBACK_SKIP_CHECKPOINT" ∷ "SHORTEST" ∷ "SINGLE" ∷ "SORTED" ∷ "STARTS" ∷ "TABLE"
    ∷ "THEN" ∷ "TRAIL" ∷ "TRUE" ∷ "UNION" ∷ "UNWIND" ∷ "WHEN" ∷ "WHERE" ∷ "WITH" ∷ "WSHORTEST"
    ∷ "XOR" ∷ []

abbrev pub in_range : ℕ → ℕ → ℕ → Bool
in_range low high n = leb low n && leb n high

-- `[A-Za-z_]` and `[A-Za-z0-9_]`
unfoldable pub starts_identifier : Char → Bool
starts_identifier c = in_range 65 90 (code c) || in_range 97 122 (code c) || nat_eq (code c) 95

unfoldable pub continues_identifier : Char → Bool
continues_identifier c = starts_identifier c || in_range 48 57 (code c)

unfoldable pub all_continue : String → Bool
all_continue String.[] = true
all_continue (String.◌∷◌ c s) = continues_identifier c && all_continue s

-- `_IDENT_RE.fullmatch`
unfoldable pub is_identifier : String → Bool
is_identifier String.[] = false
is_identifier (String.◌∷◌ c s) = starts_identifier c && all_continue s

unfoldable pub validate_identifier : (String → String) → String → Result (Unit {0})
validate_identifier upper name =
    if not (is_identifier name)
    then raised schema_error
    else if contains reserved_keywords (upper name)
    then raised schema_error
    else returned tt

abbrev first_code : String → ℕ
first_code String.[] = 0
first_code (String.◌∷◌ c s) = code c

colon_char : (c : Char) → str_eq (String.◌∷◌ c "") ":" ≡ true → code c ≡ 58
colon_char c h =
    let e : String.◌∷◌ c "" ≡ ":" = (eq_iff (String.◌∷◌ c "") ":").0 h in ap first_code e

all_continue-colon_free : (s : String) → all_continue s ≡ true → colon_free s ≡ true
unfolding all_continue continues_identifier starts_identifier
all_continue-colon_free String.[] h = refl
all_continue-colon_free (String.◌∷◌ c s) h =
    ground (arith, all_continue-colon_free s, colon_char c, h)

identifier-colon_free : (s : String) → is_identifier s ≡ true → colon_free s ≡ true
unfolding is_identifier starts_identifier
identifier-colon_free String.[] h = refl
identifier-colon_free (String.◌∷◌ c s) h =
    ground (arith, all_continue-colon_free s, colon_char c, h)

-- The id of a node whose label `validate_identifier` accepts splits into the label and the key,
-- whatever the key holds.
pub validate_identifier-split :
    (upper : String → String) (label key : String)
    → validate_identifier upper label ≡ returned tt
    → split_node_id (make_node_id label key) ≡ (label, key)
unfolding validate_identifier
validate_identifier-split upper label key h =
    let ok : is_identifier label ≡ true = ground (arith, h) in
    split_node_id-make_node_id label key (identifier-colon_free label ok)
