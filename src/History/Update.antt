-- ===== src/History/Update.antt =====
-- What evidence.py does to the database for one node of a batch: `_ensure`, `before_update`,
-- `_record`, `after_update` and `finish_update`.
use grag.Base.{
  ℕ, ◌+◌, ◌*◌, String, List, [], ◌∷◌, length, is_empty, Option, none, some, Bool, true, false, not,
  ◌&&◌, if◌then◌else◌,
}
use grag.Base.Dict.{Dict, contains, insert, update, keys}
use grag.Base.Values.{Value, Props, int, get, is_null}
use grag.Base.Result.{schema_error, python, Result, returned, raised, ◌>>◌, ◌>>=◌}
use grag.Limits.{check_size}
use grag.Graph.{split_node_id}
use grag.Revisions.{content_revision}
use grag.Evidence.{Target, unknown_label, missing, found, check_successor}
use grag.History.{
  Entry, Row, add_column, create_history, set_properties, create_row, Database, Env, UpsertNode,
  identity, Prepared, Changed, max_snapshot_bytes, max_history_entries, max_history_per_node,
  max_history_bytes, history_columns, property, snapshot_of, next_sequence, assignments,
  is_unchanged, adopts, actor_of, reason_of, baseline_reason, as_text, settled, sum_sizes, rows_of,
}
use text.Mathlib.Text.{◌==◌ as str_eq}

module _ (db : Database) where
  -- The loop of `_ensure`
  unfoldable pub add_columns : String → List String → Dict String → db.State → Result db.State
  add_columns label there [] s = returned s
  add_columns label there ((name, kind) ∷ more) s =
      let rest = add_columns label there more in
      if contains there name then rest s else db.write (add_column label name kind) s >>= rest

  unfoldable pub ensure_table : db.State → Result db.State
  ensure_table s = if db.has_history s then returned s else db.write create_history s

  unfoldable pub ensure : String → db.State → Result db.State
  ensure label s = add_columns label (keys (db.columns s label)) history_columns s >>= ensure_table

  abbrev pub is_tracked : Option Props → Bool
  is_tracked previous = not (is_null (property previous "_evidence_seq"))

  -- A change of a node's evidence that says no revision.
  unfoldable pub lacks_revision : UpsertNode → Option Props → Bool
  lacks_revision node none = false
  lacks_revision node (some p) = elim node.evidence [
    | none ↦ false
    | some _ ↦ elim node.expected_revision [ none ↦ true | some _ ↦ false ]
  ]

  abbrev pub has_evidence : UpsertNode → Bool
  has_evidence node = elim node.evidence [ none ↦ false | some _ ↦ true ]

  unfoldable pub before_update : UpsertNode → db.State → Result (Option Prepared × db.State)
  before_update node s =
      let previous = db.node s (identity node) in
      let p : Prepared = record { previous = previous; tracked = is_tracked previous } in
      if not (has_evidence node) && not (is_tracked previous)
      then returned (none, s)
      else if lacks_revision node previous
      then raised schema_error
      else (ensure node.label s >>= (λ s'. returned (some p, s')))

  -- The node of a superseding id, as the loop of `finish_update` looks it up
  unfoldable pub target_of : db.State → String → Target
  target_of s id =
      if not (db.has_label s (split_node_id id).0) then unknown_label else elim (db.node s id) [
        | none ↦ missing
        | some p ↦ found (as_text (get p "_superseded_by"))
      ]

  unfoldable pub resolves : db.State → String → Bool
  resolves s id = db.has_label s (split_node_id id).0 && not (str_eq (split_node_id id).1 "")

  module _ (env : Env) where
    unfoldable pub new_entry : Value → Props → Option String → Option String → Bool → String → Entry
    new_entry sequence value actor reason baseline now = record {
      sequence = sequence;
      revision = content_revision env.hashing value;
      recorded_at = now;
      source = get value "_source";
      actor = actor;
      reason = reason;
      baseline = baseline;
    }

    unfoldable pub new_row : String → Value → Props → Entry → Row
    new_row id sequence value entry = record {
      id = env.row_id id sequence;
      node_id = id;
      sequence = sequence;
      snapshot = env.canonical (snapshot_of value);
      metadata = env.entry_json entry;
    }

    -- The limits of `_record`, in its order, for a row and the rows that are there
    unfoldable pub check_row : Row → List Row → Result (Unit {0})
    check_row r there =
        let bytes = env.utf8 r.snapshot + env.utf8 r.metadata in
        check_size "history_identity_bytes" (env.utf8 r.node_id) 2048
        >> (check_size "history_metadata_bytes" (env.utf8 r.metadata) 16_384
            >> (check_size "history_snapshot_bytes" bytes max_snapshot_bytes
                >> (check_size "history_entries" (length there + 1) max_history_entries
                    >> (check_size "history_node_entries" (length (rows_of r.node_id there) + 1)
                          max_history_per_node
                        >> check_size "history_storage_bytes" (sum_sizes env.size there * 4 + bytes)
                            max_history_bytes))))

    -- `_record`
    unfoldable pub add_row :
        String → Value → Props → Option String → Option String → Bool → db.State → Result db.State
    add_row id sequence value actor reason baseline s =
        let entry = new_entry sequence value actor reason baseline (db.now s) in
        let r = new_row id sequence value entry in
        check_row r (db.rows s) >> db.write (create_row r) s

    abbrev pub change : Prepared → Props → Props → Changed
    change p current d = record {
      previous = p.previous;
      tracked = p.tracked;
      current = update current d;
    }

    unfoldable pub assign : UpsertNode → Prepared → Props → db.State → Result (Changed × db.State)
    assign node p current s =
        let d = assignments env node p current in
        if is_empty d
        then returned (change p current d, s)
        else (db.write (set_properties (identity node) d) s
            >>= (λ s'. returned (change p current d, s')))

    unfoldable pub after_found :
        UpsertNode → Prepared → db.State → Option Props → Result (Option Changed × db.State)
    after_found node p s none = raised (python "IndexError")
    after_found node p s (some current) =
        assign node p current s >>= (λ r. returned (some r.0, r.1))

    unfoldable pub after_update :
        UpsertNode → Option Prepared → db.State → Result (Option Changed × db.State)
    after_update node none s = returned (none, s)
    after_update node (some p) s = after_found node p s (db.node s (identity node))

    unfoldable pub add_previous : String → Option Props → db.State → Result db.State
    add_previous id none s = returned s
    add_previous id (some p) s = add_row id (int 0) p none (some baseline_reason) true s

    unfoldable pub add_baseline : String → Changed → db.State → Result db.State
    add_baseline id c s = if adopts c then add_previous id c.previous s else returned s

    -- The last lines of `finish_update`, for content that is not the same
    unfoldable pub add_revision : UpsertNode → Changed → db.State → Result db.State
    add_revision node c s =
        let n = next_sequence (property c.previous "_evidence_seq") in
        add_baseline (identity node) c s
        >>= (λ s1. db.write (set_properties (identity node) (("_evidence_seq", n) ∷ [])) s1)
        >>= add_row (identity node) n (insert "_evidence_seq" n c.current) (actor_of node.evidence)
            (reason_of node.evidence) false

    unfoldable pub check_chain : UpsertNode → Changed → ℕ → db.State → Result ℕ
    check_chain node c steps s = settled (
        check_successor (target_of s) (resolves s) (identity node) (get c.current "_evidence_state")
          steps (as_text (get c.current "_superseded_by")))

    -- Content that is the same is not recorded again.
    unfoldable pub record_change : UpsertNode → Changed → db.State → Result db.State
    record_change node c s =
        if is_unchanged env.hashing c node.evidence then returned s else add_revision node c s

    unfoldable pub finish_update :
        UpsertNode → Option Changed → ℕ → db.State → Result (ℕ × db.State)
    finish_update node none steps s = returned (steps, s)
    finish_update node (some c) steps s =
        check_chain node c steps s
        >>= (λ steps'. record_change node c s >>= (λ s'. returned (steps', s')))
