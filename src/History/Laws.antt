-- ===== src/History/Laws.antt =====
-- What the history relies on of the database, and the log of a node: the abstract view of the rows.
use grag.Base.{
  ℕ, ◌+◌, String, List, [], ◌∷◌, Option, none, some, Bool, true, false, if◌then◌else◌, str_eq, ◌≡◌,
}
use grag.Base.Dict.{insert, update, has}
use grag.Base.Values.{Value, Props, null, int, get}
use grag.Base.Result.{returned}
use grag.Revisions.{Hashing, content_revision}
use grag.History.{
  Entry, Row, merge_node, merge_edge, add_column, create_history, set_properties, create_row,
  Database, EvidenceUpdate, Changed, property, next_sequence, is_unchanged, adopts, actor_of,
  reason_of, baseline_reason,
}

-- Statements change what they name and nothing else. A SET reaches a node that is there; a MERGE creates
-- one that is not, where the column of the number, which `_ensure` has added, is NULL by default.
pub record IsDatabase (db : Database) : Type 0 where
  pub add_column_rows :
      (label name kind : String) (s s' : db.State)
      → db.write (add_column label name kind) s ≡ returned s'
      → db.rows s' ≡ db.rows s
  pub add_column_node :
      (label name kind : String) (s s' : db.State) (id : String)
      → db.write (add_column label name kind) s ≡ returned s'
      → db.node s' id ≡ db.node s id
  pub create_history_rows :
      (s s' : db.State) → db.write create_history s ≡ returned s' → db.rows s' ≡ db.rows s
  pub create_history_node :
      (s s' : db.State) (id : String)
      → db.write create_history s ≡ returned s'
      → db.node s' id ≡ db.node s id
  pub set_rows :
      (id : String) (d : Props) (s s' : db.State)
      → db.write (set_properties id d) s ≡ returned s'
      → db.rows s' ≡ db.rows s
  pub set_other :
      (id j : String) (d : Props) (s s' : db.State)
      → db.write (set_properties id d) s ≡ returned s'
      → str_eq id j ≡ false
      → db.node s' j ≡ db.node s j
  pub set_node :
      (id : String) (d p : Props) (s s' : db.State)
      → db.write (set_properties id d) s ≡ returned s'
      → db.node s id ≡ some p
      → (p' : Props) × (db.node s' id ≡ some p') × ((k : String) → get p' k ≡ get (update p d) k)
  pub merge_rows :
      (id : String) (created matched : Props) (s s' : db.State)
      → db.write (merge_node id created matched) s ≡ returned s'
      → db.rows s' ≡ db.rows s
  pub merge_other :
      (id j : String) (created matched : Props) (s s' : db.State)
      → db.write (merge_node id created matched) s ≡ returned s'
      → str_eq id j ≡ false
      → db.node s' j ≡ db.node s j
  pub merge_new :
      (id : String) (created matched : Props) (s s' : db.State)
      → db.write (merge_node id created matched) s ≡ returned s'
      → db.node s id ≡ none
      → has "_evidence_seq" created ≡ false
      → property (db.node s' id) "_evidence_seq" ≡ null
  pub merge_old :
      (id : String) (created matched p : Props) (s s' : db.State)
      → db.write (merge_node id created matched) s ≡ returned s'
      → db.node s id ≡ some p
      → (q : Props) × (db.node s' id ≡ some q) × ((k : String) → get q k ≡ get (update p matched) k)
  pub merge_edge_rows :
      (kind a b : String) (created matched : Props) (s s' : db.State)
      → db.write (merge_edge kind a b created matched) s ≡ returned s'
      → db.rows s' ≡ db.rows s
  pub merge_edge_node :
      (kind a b : String) (created matched : Props) (s s' : db.State) (id : String)
      → db.write (merge_edge kind a b created matched) s ≡ returned s'
      → db.node s' id ≡ db.node s id
  pub create_row_rows :
      (r : Row) (s s' : db.State)
      → db.write (create_row r) s ≡ returned s'
      → db.rows s' ≡ r ∷ db.rows s
  pub create_row_node :
      (r : Row) (s s' : db.State) (id : String)
      → db.write (create_row r) s ≡ returned s'
      → db.node s' id ≡ db.node s id

-- What a revision says, without its time and its snapshot.
pub record Note : Type 0 where
  pub sequence : Value
  pub revision : String
  pub actor : Option String
  pub reason : Option String
  pub baseline : Bool

unfoldable pub note_of : Entry → Note
note_of e = record {
  sequence = e.sequence;
  revision = e.revision;
  actor = e.actor;
  reason = e.reason;
  baseline = e.baseline;
}

-- The notes of a node's rows
unfoldable pub notes : (String → Entry) → String → List Row → List Note
notes parse j [] = []
notes parse j (r ∷ rs) =
    let rest = notes parse j rs in
    if str_eq r.node_id j then note_of (parse r.metadata) ∷ rest else rest

unfoldable pub with_previous : Hashing → Option Props → List Note → List Note
with_previous h none log = log
with_previous h (some p) log =
    let note : Note = record {
      sequence = int 0;
      revision = content_revision h p;
      actor = none;
      reason = some baseline_reason;
      baseline = true;
    } in
    note ∷ log

-- A baseline on top, where an older node is adopted
unfoldable pub with_baseline : Hashing → Changed → List Note → List Note
with_baseline h c log = if adopts c then with_previous h c.previous log else log

unfoldable pub current_note : Hashing → Changed → Option EvidenceUpdate → Note
current_note h c u =
    let n = next_sequence (property c.previous "_evidence_seq") in
    record {
      sequence = n;
      revision = content_revision h (insert "_evidence_seq" n c.current);
      actor = actor_of u;
      reason = reason_of u;
      baseline = false;
    }

-- The specification: the log of a node after an update. It stays where the content of a tracked node
-- is the same and the update neither names an actor nor gives a reason. Otherwise it has one note
-- more, of the current content, above a baseline where an older node is adopted.
unfoldable pub recorded : Hashing → Changed → Option EvidenceUpdate → List Note → List Note
recorded h c u log = if is_unchanged h c u then log else current_note h c u ∷ with_baseline h c log

-- The number of the last revision after an update
unfoldable pub next_number : Hashing → Changed → Option EvidenceUpdate → Value
next_number h c u =
    let v = property c.previous "_evidence_seq" in if is_unchanged h c u then v else next_sequence v

-- The numbers of a node's revisions, the latest first, beside the number that the node has: none, or
-- without a gap down to 1, or to the baseline 0.
pub data Counts : List Value → Value → Type 0 where
  untracked : Counts [] null
  created : Counts (int 1 ∷ []) (int 1)
  adopted : Counts (int 1 ∷ int 0 ∷ []) (int 1)
  next : {ns : List Value} {n : ℕ} → Counts ns (int n) → Counts (int (n + 1) ∷ ns) (int (n + 1))

unfoldable pub numbers : List Note → List Value
numbers [] = []
numbers (n ∷ ns) = n.sequence ∷ numbers ns
