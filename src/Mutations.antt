-- ===== src/Mutations.antt =====
-- src/grag/core/mutations.py: `apply_mutation`, with the guards of `_prepare`, the history of the
-- nodes, and the receipts of operations. What `_prepare` makes of a request, the queries for an
-- entity and the commit are parameters.
pub mod Batch
pub mod Apply
pub mod Replay
pub mod Once
pub mod Guards
pub mod Rounds
pub mod Finishing
pub mod Writing
pub mod Numbering
pub mod Memory
mod Tests
use grag.Base.{
  ℕ, ◌+◌, ◌*◌, leb, String, List, [], ◌∷◌, ◌++◌, length, Option, none, some, Bool, true, false, not,
  ◌&&◌, ◌||◌, if◌then◌else◌, str_eq,
}
use grag.Base.Dict.{Dict, contains, insert, has}
use grag.Base.Values.{Value, Props, str, get}
use grag.Base.Result.{GragError, schema_error, conflict, Result, returned, raised, ◌>>◌, ◌>>=◌}
use grag.Revisions.{Hashing, content_revision}
use grag.Limits.{Encoding}
use grag.History.{Database, Env, UpsertNode, identity, Prepared, Changed}
use grag.History.Update.{has_evidence, before_update, after_update, finish_update}
use grag.Mutate.Edges.{UpsertEdge}
use grag.Mutate.{Warning, repeats}
use text.Mathlib.Text.{starts_with}

-- `UpsertNodesRequest` and `UpsertEdgesRequest`, which has no nodes
pub record Request : Type 0 where
  pub nodes : List UpsertNode
  pub edges : List UpsertEdge
  pub operation_id : Option String

-- `Target`, whose query is determined by the identity
pub record Target : Type 0 where
  pub identity : String
  pub expected : Option String

-- What `_prepare` returns
pub record Plan : Type 0 where
  pub nodes : List UpsertNode
  pub edges : List UpsertEdge
  pub targets : List Target
  pub warnings : List Warning

pub record MutationSummary : Type 0 where
  pub nodes : ℕ
  pub edges : ℕ
  pub warnings : List Warning
  pub operation_id : Option String
  pub replayed : Bool
  pub revisions : Dict String
  pub history : Dict String

-- A row of the table of operations.
pub record Receipt : Type 0 where
  pub id : String
  pub digest : String
  pub result : String

-- `validate` is `_prepare` before its guards, `entities` the rows of a target's query. `commit` gives
-- the database that it leaves, from those before and after the transaction's writes.
pub record Store (db : Database) : Type 0 where
  pub has_operations : db.State → Bool
  pub receipts : db.State → List Receipt
  pub create_operations : db.State → Result db.State
  pub create_receipt : Receipt → db.State → Result db.State
  pub validate : Request → db.State → Result Plan
  pub entities : String → db.State → List Props
  pub commit : db.State → db.State → Result (Unit {0}) × db.State

-- `canonical` is the canonical JSON of the contract, the kind and the payload of a request, where
-- there is one; `embeds new old` is `old in new`.
pub record Codec : Type 0 where
  pub canonical : Request → Option String
  pub summary_json : MutationSummary → String
  pub parse_summary : String → MutationSummary
  pub encoding : MutationSummary → Encoding
  pub embeds : String → String → Bool

-- `Target.revision`, of the rows that its query found
unfoldable pub revision_of : Hashing → List Props → Result String
revision_of h [] = returned "absent"
revision_of h (row ∷ []) = returned (content_revision h row)
revision_of h (row ∷ _ ∷ _) = raised schema_error

abbrev pub expect : String → String → Result (Unit {0})
expect expected actual =
    if str_eq actual expected then returned tt else raised (conflict "revision_conflict")

abbrev pub check_expected : Option String → Result String → Result (Unit {0})
check_expected none actual = returned tt
check_expected (some expected) actual = actual >>= expect expected

-- `len(set(identities)) != len(identities)`, negated
unfoldable pub distinct : List String → Bool
distinct [] = true
distinct (id ∷ ids) = not (contains ids id) && distinct ids

abbrev pub identities : {A : Type 0} → List (UpsertNode × A) → List String
identities [] = []
identities ((node, a) ∷ more) = identity node ∷ identities more

abbrev pub is_engaged : {A : Type 0} → Option A → Bool
is_engaged none = false
is_engaged (some p) = true

abbrev pub any_engaged : {A : Type 0} → List (UpsertNode × Option A) → Bool
any_engaged [] = false
any_engaged ((node, o) ∷ more) = is_engaged o || any_engaged more

unfoldable pub check_identities : List (UpsertNode × Option Prepared) → Result (Unit {0})
check_identities items =
    if any_engaged items && not (distinct (identities items))
    then raised schema_error
    else returned tt

-- The advice about a property whose new value embeds the prior one
unfoldable pub advice : Env → Codec → String → Props → Props → List Warning
advice env codec owner [] current = []
advice env codec owner ((prop, str old) ∷ more) current =
    let rest = advice env codec owner more current in
    let grows : Bool = elim (get current prop) [
      | str new ↦ leb 200 (env.size old) && not (str_eq old new) && codec.embeds new old
      | _ ↦ false
    ] in
    if not (starts_with prop "_") && grows then repeats owner prop ∷ rest else rest
advice env codec owner ((prop, value) ∷ more) current = advice env codec owner more current

abbrev pub advise : Env → Codec → String → Option Changed → List Warning
advise env codec owner none = []
advise env codec owner (some c) = elim c.previous [
  | none ↦ []
  | some p ↦ advice env codec owner p c.current
]

abbrev pub advise_all : Env → Codec → List (UpsertNode × Option Changed) → List Warning
advise_all env codec [] = []
advise_all env codec ((node, c) ∷ more) =
    advise env codec (identity node) c ++ advise_all env codec more

-- What `history` says of a node: whether it was there, and whether that version is retained.
unfoldable pub disposition : Option Prepared → Option Props → String
disposition (some p) there = elim p.previous [ none ↦ "created" | some _ ↦ "recorded" ]
disposition none there = elim there [ none ↦ "created" | some _ ↦ "not_recorded" ]
