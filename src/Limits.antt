-- ===== src/Limits.antt =====
-- src/grag/core/limits.py: the bounds on admitted requests and on the work of a call.
pub mod Charges
pub mod Source
pub mod Requests
mod Tests
use grag.Base.{
  ℕ, zero, suc, ◌+◌, ◌-◌, ◌*◌, ◌/◌, ◌^◌, min, max, ltb, leb, String, List, [], ◌∷◌, ◌++◌, length,
  take, Option, none, some, Bool, true, false, not, ◌&&◌, ◌||◌, if◌then◌else◌,
}
use grag.Base.Dict.{Dict, lookup, insert, has}
use grag.Base.Result.{GragError, resource_limit, python, Result, returned, raised, ◌>>◌}
use text.Mathlib.Text.{starts_with}

abbrev pub max_request_bytes : ℕ
max_request_bytes = 2 * 1024 * 1024

abbrev pub max_mutations : ℕ
max_mutations = 1000

abbrev pub max_labels : ℕ
max_labels = 64

abbrev pub max_candidates : ℕ
max_candidates = 1024

-- `WORK_LIMITS`
abbrev pub work_limits : Dict ℕ
work_limits =
    ("result_bytes", 64 * 1024 * 1024)
    ∷ ("result_rows", 100_000)
    ∷ ("statements", 4096)
    ∷ ("lexical_bytes", 4 * 1024 * 1024)
    ∷ ("lexical_terms", 200_000)
    ∷ ("packing_bytes", 128 * 1024 * 1024)
    ∷ ("packing_steps", 8192)
    ∷ ("source_bytes", 256 * 1024 * 1024)
    ∷ ("source_document_bytes", max_request_bytes)
    ∷ ("source_entries", 100_000)
    ∷ []

unfoldable pub work_limit : String → Option ℕ
work_limit name = lookup name work_limits

unfoldable pub check_size : String → ℕ → ℕ → Result (Unit {0})
check_size name actual maximum =
    if ltb maximum actual then raised (resource_limit name maximum) else returned tt

-- What `iterencode` yields: chunks, by the bytes of their UTF-8, and then the end, a
-- RecursionError or UnicodeError, or a chunk that cannot be encoded.
pub data Encoding : Type 0 where
  done fails : Encoding
  part : ℕ → Encoding → Encoding

-- The loop of `json_bytes` from the size so far. The sum is tested after each chunk.
unfoldable pub count_bytes : ℕ → String → ℕ → Encoding → Result ℕ
count_bytes maximum name size done = returned size
count_bytes maximum name size fails = raised (resource_limit name maximum)
count_bytes maximum name size (part n rest) =
    let more = count_bytes maximum name (size + n) rest in
    check_size name (size + n) maximum >> more

unfoldable pub json_bytes : Encoding → ℕ → String → Result ℕ
json_bytes value maximum name = count_bytes maximum name 0 value

pub record WorkBudget : Type 0 where
  pub used : Dict ℕ

abbrev pub fresh_budget : WorkBudget
fresh_budget = record { used = [] }

-- `used.get(name, 0)`
unfoldable pub used_of : WorkBudget → String → ℕ
used_of w name = elim (lookup name w.used) [ none ↦ 0 | some n ↦ n ]

-- `WorkBudget.charge`: the charge is recorded before it is tested.
unfoldable pub add_charge : String → ℕ → WorkBudget → Result (Unit {0}) × WorkBudget
add_charge name amount w =
    let total = used_of w name + amount in
    let result : Result (Unit {0}) = elim (work_limit name) [
      | none ↦ raised (python "KeyError")
      | some limit ↦ check_size name total limit
    ] in
    (result, record { used = insert name total w.used })

-- The two context variables, `_SOURCE` and `_WORK`.
pub record Context : Type 0 where
  pub source : Option WorkBudget
  pub work : Option WorkBudget

-- A call that reads and changes the context variables. They keep their values when it raises.
abbrev pub Action : Type 0 → Type 0
Action A = Context → Result A × Context

infixl 5 ◌>>=◌
unfoldable pub ◌>>=◌ : {A B : Type 0} → Action A → (A → Action B) → Action B
◌>>=◌ m f c = let (r, c') = m c in elim r [ returned a ↦ f a c' | raised e ↦ (raised e, c') ]

unfoldable pub charge_work : String → ℕ → Action (Unit {0})
charge_work name amount c = elim c.work [
  | none ↦ (returned tt, c)
  | some w ↦ let (r, w') = add_charge name amount w in (r, record c { work = some w' })
]

unfoldable pub charge_source : String → ℕ → Action (Unit {0})
charge_source name amount c = elim c.source [
  | none ↦ (returned tt, c)
  | some w ↦ let (r, w') = add_charge name amount w in (r, record c { source = some w' })
]

unfoldable pub charge : String → ℕ → Action (Unit {0})
charge name amount =
    if starts_with name "source_" then charge_source name amount else charge_work name amount

-- `charge_result`, of a row whose JSON takes so many bytes
unfoldable pub charge_result : ℕ → Action (Unit {0})
charge_result bytes = charge_work "result_bytes" bytes

-- `work_budget` around a body, and so `bounded_work`. The variable is reset however the body ends.
unfoldable pub bounded_work : {A : Type 0} → Action A → Action A
bounded_work body c = elim c.work [
  | some w ↦ body c
  | none ↦
      let (r, c') = body (record c { work = some fresh_budget }) in (r, record c' { work = none })
]

unfoldable pub bounded_sources : {A : Type 0} → Action A → Action A
bounded_sources body c = elim c.source [
  | some w ↦ body c
  | none ↦
      let (r, c') = body (record c { source = some fresh_budget }) in
      (r, record c' { source = none })
]

-- The list fields of a request that it has, by their lengths; `getattr(req, name, [])` of a field
-- that it has not is empty.
abbrev pub Fields : Type 0
Fields = Dict ℕ

unfoldable pub field_length : Fields → String → ℕ
field_length fields name = elim (lookup name fields) [ none ↦ 0 | some n ↦ n ]

abbrev pub field_bounds : Dict ℕ
field_bounds =
    ("node_tables", 64)
    ∷ ("rel_tables", 64)
    ∷ ("documents", 256)
    ∷ ("paths", 64)
    ∷ ("sync_paths", 64)
    ∷ []

unfoldable pub check_fields : Fields → Dict ℕ → Result (Unit {0})
check_fields fields [] = returned tt
check_fields fields ((name, maximum) ∷ bounds) =
    let rest = check_fields fields bounds in
    check_size name (field_length fields name) maximum >> rest

unfoldable pub check_items : Fields → Result (Unit {0})
check_items fields =
    if has "nodes" fields || has "edges" fields
    then check_size "mutation_items" (field_length fields "nodes" + field_length fields "edges")
        max_mutations
    else returned tt

unfoldable pub check_bytes : Encoding → Result (Unit {0})
check_bytes body = elim (json_bytes body max_request_bytes "request_bytes") [
  | returned _ ↦ returned tt
  | raised e ↦ raised e
]

unfoldable pub validate_request : Encoding → Fields → Result (Unit {0})
validate_request body fields =
    check_bytes body >> (check_items fields >> check_fields fields field_bounds)

-- By the number of tables.
unfoldable pub candidate_quota : ℕ → ℕ → Result ℕ
candidate_quota tables requested = elim (check_size "search_labels" tables max_labels) [
  | raised e ↦ raised e
  | returned _ ↦ returned (min requested (max_candidates / max 1 tables))
]

abbrev pub source_limit : ℕ
source_limit = 256 * 1024 * 1024

-- `work.used.get("source_bytes", 0) if work else 0`
unfoldable pub source_used : Context → ℕ
source_used c = elim c.source [ none ↦ 0 | some w ↦ used_of w "source_bytes" ]

-- `read_source` of a file that holds these bytes. `-remaining` passes 0 where more than the limit
-- is used. One byte more than the cap is read.
unfoldable pub read_source : List ℕ → ℕ → Action (List ℕ)
read_source file max_bytes c =
    let used = source_used c in
    let cap = min max_bytes (source_limit - used) in
    let bytes = take (cap + 1) file in
    if ltb source_limit used
    then (raised (resource_limit "source_bytes" 0), c)
    else (charge "source_bytes" (length bytes) >>= λ _ c'.
          elim (check_size "source_file_bytes" (length bytes) cap) [
            | raised e ↦ (raised e, c')
            | returned _ ↦ (returned bytes, c')
          ])
        c
