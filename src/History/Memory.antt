-- ===== src/History/Memory.antt =====
-- A database in memory, for the tests: it has the laws that the history relies on.
use grag.Base.{
  String, List, [], ◌∷◌, Option, none, some, Bool, true, false, str_eq, ◌≡◌, refl, ◌∙◌, arith,
  eq_iff, Option-cases, inl, inr,
}
use grag.Base.Dict.{Dict, lookup, insert, update, has, lookup-insert}
use grag.Base.Values.{Value, Props, null, get}
use grag.Base.Wire.{
  Wire, via, both, lists, options, texts, flags, any_values, encode, decode, decode-encode,
}
use grag.Evidence.{malformed}
use grag.Base.Result.{returned, returned_inj}
use grag.History.{
  Entry, Env, Row, Command, merge_node, merge_edge, add_column, create_history, set_properties,
  create_row, Database, property,
}
use grag.History.Laws.{IsDatabase}

pub record Memory : Type 0 where
  pub nodes : Dict Props
  pub rows : List Row
  -- the table of operations: ids, digests and results, and whether it is there
  pub receipts : List (String × (String × String))
  pub operations : Bool

abbrev pub set_in : String → Props → Option Props → Memory → Memory
set_in id d none s = s
set_in id d (some p) s = record s { nodes = insert id (update p d) s.nodes }

abbrev pub merge_in : String → Props → Props → Option Props → Memory → Memory
merge_in id created matched none s = record s { nodes = insert id created s.nodes }
merge_in id created matched (some p) s = record s { nodes = insert id (update p matched) s.nodes }

abbrev pub run_in : Command → Memory → Memory
run_in (merge_node id created matched) s = merge_in id created matched (lookup id s.nodes) s
run_in (merge_edge kind a b created matched) s = s
run_in (add_column label name kind) s = s
run_in create_history s = s
run_in (set_properties id d) s = set_in id d (lookup id s.nodes) s
run_in (create_row r) s = record s { rows = r ∷ s.rows }

-- Each label has a table with the columns of the history and two others.
abbrev pub all_columns : Dict String
all_columns =
    ("name", "STRING")
    ∷ ("count", "INT64")
    ∷ ("_source", "STRING")
    ∷ ("_evidence_seq", "INT64")
    ∷ []

abbrev pub memory : Database
memory = record {
  State = Memory;
  node = λ s id. lookup id s.nodes;
  columns = λ _ _. all_columns;
  has_label = λ _ _. true;
  primary_key = λ _ _. some "id";
  endpoints = λ _ _. some ("Claim", "Claim");
  has_history = λ _. true;
  rows = λ s. s.rows;
  now = λ _. "2026-01-01T00:00:00+00:00";
  write = λ c s. returned (run_in c s);
}

set_in-rows :
    (id : String) (d : Props) (o : Option Props) (s : Memory) → (set_in id d o s).rows ≡ s.rows
set_in-rows id d none s = refl
set_in-rows id d (some p) s = refl

merge_in-rows :
    (id : String) (c m : Props) (o : Option Props) (s : Memory)
    → (merge_in id c m o s).rows ≡ s.rows
merge_in-rows id c m none s = refl
merge_in-rows id c m (some p) s = refl

set_in-other :
    (id j : String) (d : Props) (o : Option Props) (s : Memory)
    → str_eq id j ≡ false
    → lookup j (set_in id d o s).nodes ≡ lookup j s.nodes
set_in-other id j d none s e = refl
set_in-other id j d (some p) s e = rw (lookup-insert id j (update p d) s.nodes, e)

merge_in-other :
    (id j : String) (c m : Props) (o : Option Props) (s : Memory)
    → str_eq id j ≡ false
    → lookup j (merge_in id c m o s).nodes ≡ lookup j s.nodes
merge_in-other id j c m none s e = rw (lookup-insert id j c s.nodes, e)
merge_in-other id j c m (some p) s e = rw (lookup-insert id j (update p m) s.nodes, e)

insert-there : (id : String) (p : Props) (d : Dict Props) → lookup id (insert id p d) ≡ some p
insert-there id p d = lookup-insert id id p d ∙ ground (arith, eq_iff id id)

has-property : (k : String) (p : Props) → has k p ≡ false → property (some p) k ≡ null
unfolding property
has-property k p h = elim (Option-cases (lookup k p)) [
  | inl e ↦ rw (get, e)
  | inr (v, e) ↦ absurd (ground (arith, rw (has, e) at h))
]

pub memory-IsDatabase : IsDatabase memory
memory-IsDatabase = record {
  add_column_rows = λ label name kind s s' h. rw (← returned_inj h);
  add_column_node = λ label name kind s s' id h. rw (← returned_inj h);
  create_history_rows = λ s s' h. rw (← returned_inj h);
  create_history_node = λ s s' id h. rw (← returned_inj h);
  set_rows = λ id d s s' h. rw (← returned_inj h) (set_in-rows id d (lookup id s.nodes) s);
  set_other =
      λ id j d s s' h e. rw (← returned_inj h) (set_in-other id j d (lookup id s.nodes) s e);
  set_node = λ id d p s s' h e.
      (update p d, rw (← returned_inj h, e) (insert-there id (update p d) s.nodes), λ k. refl);
  merge_rows = λ id c m s s' h. rw (← returned_inj h) (merge_in-rows id c m (lookup id s.nodes) s);
  merge_other =
      λ id j c m s s' h e. rw (← returned_inj h) (merge_in-other id j c m (lookup id s.nodes) s e);
  merge_new = λ id c m s s' h e new.
      rw (← returned_inj h, e, insert-there id c s.nodes) (has-property "_evidence_seq" c new);
  merge_old = λ id c m p s s' h e.
      (update p m, rw (← returned_inj h, e) (insert-there id (update p m) s.nodes), λ k. refl);
  merge_edge_rows = λ kind a b c m s s' h. rw (← returned_inj h);
  merge_edge_node = λ kind a b c m s s' id h. rw (← returned_inj h);
  create_row_rows = λ r s s' h. rw (← returned_inj h);
  create_row_node = λ r s s' id h. rw (← returned_inj h);
}

abbrev to_fields :
    Entry → Value × (String × (String × (Value × (Option String × (Option String × Bool)))))
to_fields e =
    (e.sequence, (e.revision, (e.recorded_at, (e.source, (e.actor, (e.reason, e.baseline))))))

abbrev of_fields :
    Value × (String × (String × (Value × (Option String × (Option String × Bool))))) → Entry
of_fields f = record {
  sequence = f.0;
  revision = f.1.0;
  recorded_at = f.1.1.0;
  source = f.1.1.1.0;
  actor = f.1.1.1.1.0;
  reason = f.1.1.1.1.1.0;
  baseline = f.1.1.1.1.1.1;
}

abbrev entries : Wire Entry
entries =
    via to_fields of_fields (λ e. refl)
      (both any_values (
        both texts
          (both texts (both any_values (both (options texts) (both (options texts) flags))))))

abbrev no_entry : Entry
no_entry = of_fields (null, ("", ("", (null, (none, (none, false))))))

abbrev pub props_text : Props → String
props_text p = encode (lists (both texts any_values)) p

-- Hashes are the texts themselves, and no claim cites a file.
abbrev pub memory_env : Env
memory_env = record {
  hashing = record { encode = props_text; sha256 = λ s. s };
  texts = record { fold = λ s. s; from_iso = λ _. malformed };
  canonical = props_text;
  claim_json = props_text;
  row_id = λ id v. encode (both texts any_values) (id, v);
  entry_json = λ e. encode entries e;
  parse_entry = decode entries no_entry;
  utf8 = λ s. 100;
  size = λ s. 100;
  anchors = λ _. none;
}

pub memory-parses : (e : Entry) → memory_env.parse_entry (memory_env.entry_json e) ≡ e
memory-parses e = decode-encode entries no_entry e
