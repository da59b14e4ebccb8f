-- ===== src/History.antt =====
-- src/grag/core/evidence.py: the history of tracked nodes, which `before_update`, `after_update` and
-- `finish_update` write with `_record`; and `claim_changed` of src/grag/core/source_anchors.py. The
-- database, JSON, hashes and the files that a claim cites are parameters. A node is addressed by its
-- id, and a date is given by its ISO text in UTC. A call gives back the database, unless it raises:
-- then the transaction around it is rolled back.
pub mod Update
pub mod Laws
pub mod Numbers
pub mod Refinement
pub mod Steps
pub mod Prior
pub mod Memory
pub mod Page
mod Tests
use grag.Base.{
  ℕ, zero, suc, ◌+◌, ◌*◌, String, List, [], ◌∷◌, length, Option, none, some, Bool, true, false, not,
  ◌&&◌, ◌||◌, if◌then◌else◌, str_eq,
}
use grag.Base.Dict.{Dict, contains, has, insert, update, filter_items}
use grag.Base.Values.{Value, Props, null, int, negative, str, get, is_null}
use grag.Base.Result.{GragError, schema_error, python, Result, returned, raised, ◌>>◌, ◌>>=◌}
use grag.Limits.{check_size}
use grag.Graph.{make_node_id, split_node_id, vector_props}
use grag.Revisions.{Hashing, content_revision}
use grag.Evidence.{
  Texts, Target, unknown_label, missing, found, present, ended_state, check_successor,
}
use text.Mathlib.Text.{starts_with}

-- `EvidenceHistoryEntry`
pub record Entry : Type 0 where
  pub sequence : Value
  pub revision : String
  pub recorded_at : String
  pub source : Value
  pub actor : Option String
  pub reason : Option String
  pub baseline : Bool

-- A row of the table of the history.
pub record Row : Type 0 where
  pub id : String
  pub node_id : String
  pub sequence : Value
  pub snapshot : String
  pub metadata : String

-- The statements that are executed for a write: ALTER TABLE of a label by a column and its type,
-- CREATE NODE TABLE for the history, SET for the node with an id, CREATE of a row, and MERGE of the
-- node with an id, or of the edge of a type between two nodes, whose properties are set in one way
-- on CREATE and in another on MATCH.
pub data Command : Type 0 where
  merge_node : String → Props → Props → Command
  merge_edge : String → String → String → Props → Props → Command
  add_column : String → String → String → Command
  create_history : Command
  set_properties : String → Props → Command
  create_row : Row → Command

pub record Database : Type 1 where
  pub State : Type 0
  -- `MATCH (n) RETURN n`, by the id of the node
  pub node : State → String → Option Props
  -- `_table_columns`: the columns of a table with their types
  pub columns : State → String → Dict String
  pub has_label : State → String → Bool
  pub primary_key : State → String → Option String
  -- `_rel_endpoints`: the labels that a type of edges connects
  pub endpoints : State → String → Option (String × String)
  pub has_history : State → Bool
  -- what the table of the history holds
  pub rows : State → List Row
  pub now : State → String
  pub write : Command → State → Result State

-- `canonical` is `canonical_json` of a map, `claim_json` is `json.dumps` with sorted keys, `row_id` is
-- `canonical_json([identity, sequence])`; an entry is written and read by `model_dump_json` and
-- `model_validate_json`. `utf8` counts bytes, `size` characters. `anchors` is `anchor_sources` with
-- the registered roots.
pub record Env : Type 0 where
  pub hashing : Hashing
  pub texts : Texts
  pub canonical : Props → String
  pub claim_json : Props → String
  pub row_id : String → Value → String
  pub entry_json : Entry → String
  pub parse_entry : String → Entry
  pub utf8 : String → ℕ
  pub size : String → ℕ
  pub anchors : Value → Option String

-- `EvidenceUpdate`: a field that can be set is `none` where it is not in `model_fields_set`.
pub record EvidenceUpdate : Type 0 where
  pub state : Option Value
  pub review : Option Value
  pub expires_at : Option Value
  pub superseded_by : Option Value
  pub actor : Option String
  pub reason : Option String

pub record UpsertNode : Type 0 where
  pub label : String
  pub key : String
  pub properties : Props
  pub source : Option String
  pub expected_revision : Option String
  pub evidence : Option EvidenceUpdate

abbrev pub identity : UpsertNode → String
identity node = make_node_id node.label node.key

pub record Prepared : Type 0 where
  pub previous : Option Props
  pub tracked : Bool

-- `prepared` once `after_update` has added the current node
pub record Changed : Type 0 where
  pub previous : Option Props
  pub tracked : Bool
  pub current : Props

abbrev pub max_snapshot_bytes : ℕ
max_snapshot_bytes = 1024 * 1024

abbrev pub max_history_entries : ℕ
max_history_entries = 100_000

abbrev pub max_history_per_node : ℕ
max_history_per_node = 1000

abbrev pub max_history_bytes : ℕ
max_history_bytes = 256 * 1024 * 1024

abbrev pub history_columns : Dict String
history_columns =
    ("_evidence_state", "STRING")
    ∷ ("_review_state", "STRING")
    ∷ ("_expires_at", "STRING")
    ∷ ("_superseded_by", "STRING")
    ∷ ("_evidence_seq", "INT64")
    ∷ ("_source", "STRING")
    ∷ ("_created_at", "TIMESTAMP")
    ∷ ("_source_files", "STRING")
    ∷ []

-- `row.get(k)` of the row that a query found, if it found one
unfoldable pub property : Option Props → String → Value
property none k = null
property (some p) k = get p k

-- `_snapshot`
unfoldable pub snapshot_of : Props → Props
snapshot_of value =
    filter_items (λ k v. not (contains vector_props k) && not (str_eq k "_ID") && not (is_null v))
      value

-- `int(previous.get("_evidence_seq") or 0) + 1`, of a column of integers
abbrev pub next_sequence : Value → Value
next_sequence (int n) = int (n + 1)
next_sequence (negative zero) = int 0
next_sequence (negative (suc n)) = negative n
next_sequence _ = int 1

-- `claim` within `claim_changed`
unfoldable pub claim : Props → Props
claim row =
    filter_items (λ k v. (not (starts_with k "_") || str_eq k "_source") && not (is_null v)) row

unfoldable pub claim_changed : Env → Option Props → Props → Bool
claim_changed env none current = true
claim_changed env (some row) current =
    not (str_eq (env.claim_json (claim row)) (env.claim_json (claim current)))

abbrev pub option_value : Option String → Value
option_value none = null
option_value (some s) = str s

-- `anchors != current.get(ANCHOR_PROP)`, negated
abbrev pub same_anchor : Option String → Value → Bool
same_anchor none null = true
same_anchor (some a) (str b) = str_eq a b
same_anchor _ _ = false

abbrev pub set_field : String → Option Value → Props → Props
set_field name none d = d
set_field name (some v) d = insert name v d

-- The assignments of a node that was not tracked before
unfoldable pub adopt : Texts → Bool → Props → Props
adopt t true current = []
adopt t false current =
    let state : String = elim (ended_state t (get current "status")) [
      | some legacy ↦ legacy
      | none ↦ "current"
    ] in
    ("_evidence_state", str state) ∷ ("_review_state", str "unreviewed") ∷ []

-- The assignments of the update's fields that are set
unfoldable pub patch : Option EvidenceUpdate → Props → Props
patch none d = d
patch (some u) d = set_field "_superseded_by" u.superseded_by (
    set_field "_expires_at" u.expires_at
      (set_field "_review_state" u.review (set_field "_evidence_state" u.state d)))

unfoldable pub anchor : Env → Option Props → Props → Props → Props
anchor env previous current d =
    let files = env.anchors (get current "_source") in
    if claim_changed env previous current && not (same_anchor files (get current "_source_files"))
    then insert "_source_files" (option_value files) d
    else d

unfoldable pub assignments : Env → UpsertNode → Prepared → Props → Props
assignments env node p current =
    anchor env p.previous current (patch node.evidence (adopt env.texts p.tracked current))

abbrev pub has_text : Option String → Bool
has_text o = elim (present o) [ none ↦ false | some _ ↦ true ]

abbrev pub is_explained : Option EvidenceUpdate → Bool
is_explained none = false
is_explained (some u) = has_text u.actor || has_text u.reason

abbrev pub actor_of : Option EvidenceUpdate → Option String
actor_of none = none
actor_of (some u) = u.actor

abbrev pub reason_of : Option EvidenceUpdate → Option String
reason_of none = none
reason_of (some u) = u.reason

-- `content_revision(previous)` of a node that is tracked, which was there
unfoldable pub is_unchanged : Hashing → Changed → Option EvidenceUpdate → Bool
is_unchanged h c update = elim c.previous [
  | none ↦ false
  | some p ↦
      c.tracked
      && str_eq (content_revision h p) (content_revision h c.current)
      && not (is_explained update)
]

-- `previous is not None and not tracked`
unfoldable pub adopts_of : Option Props → Bool → Bool
adopts_of none tracked = false
adopts_of (some p) tracked = not tracked

-- The test for a baseline
unfoldable pub adopts : Changed → Bool
adopts c = adopts_of c.previous c.tracked

abbrev pub baseline_reason : String
baseline_reason = "Baseline at history adoption; earlier authorship/edits unknown"

abbrev pub as_text : Value → Option String
as_text (str s) = some s
as_text _ = none

-- The result of a loop that had fuel enough
abbrev pub settled : Option (Result ℕ) → Result ℕ
settled none = raised (python "RecursionError")
settled (some r) = r

abbrev pub sum_sizes : (String → ℕ) → List Row → ℕ
sum_sizes size [] = 0
sum_sizes size (r ∷ rs) = size r.snapshot + size r.metadata + sum_sizes size rs

abbrev pub rows_of : String → List Row → List Row
rows_of j [] = []
rows_of j (r ∷ rs) = let rest = rows_of j rs in if str_eq r.node_id j then r ∷ rest else rest
