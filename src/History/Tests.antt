-- ===== src/History/Tests.antt =====
-- A claim that is tracked, adopted and revised in memory.
use grag.Base.{List, Bool, true, str_eq, length, ℕ, [], ◌∷◌, none, some, false, ◌≡◌, refl}
use grag.Base.Values.{null, int, Props, str}
use grag.Base.Result.{Result, returned, raised}
use grag.Base.Dict.{filter_items, lookup, insert, update, contains}
use grag.Graph.{make_node_id}
use grag.Limits.{check_size}
use grag.Revisions.{content_revision, is_evidence}
use grag.Evidence.{check_successor, present}
use grag.History.{
  Row, Entry, UpsertNode, EvidenceUpdate, Changed, is_unchanged, adopts, adopts_of, snapshot_of,
  property,
}
use grag.History.Update.{
  check_chain, record_change, add_revision, add_baseline, add_previous, add_row, check_row,
  new_entry, new_row, finish_update,
}
use grag.History.Page.{Ends, read_history, read_history-Ends}
use grag.History.Refinement.{Finished, finish_update-Finished}
use grag.History.Memory.{Memory, memory, memory_env, memory-IsDatabase, memory-parses}

abbrev review : EvidenceUpdate
review = record {
  state = none;
  review = some (str "accepted");
  expires_at = none;
  superseded_by = none;
  actor = some "ann";
  reason = some "checked";
}

abbrev node : UpsertNode
node = record {
  label = "Claim";
  key = "a";
  properties = ("name", str "old") ∷ [];
  source = none;
  expected_revision = some "0";
  evidence = some review;
}

abbrev older : Props
older = ("name", str "old") ∷ []

-- The claim was there before its history began.
abbrev changed : Changed
changed = record {
  previous = some older;
  tracked = false;
  current = ("name", str "new") ∷ ("_evidence_state", str "current") ∷ [];
}

abbrev start : Memory
start = record {
  nodes = ("Claim:a", changed.current) ∷ [];
  rows = [];
  receipts = [];
  operations = false;
}

abbrev memory_of : Result (ℕ × Memory) → Memory
memory_of (returned (n, s)) = s
memory_of (raised e) = start

abbrev finished_claim : Result (ℕ × Memory)
finished_claim = finish_update memory memory_env node (some changed) 0 start

finish_returns : finished_claim ≡ returned (0, memory_of finished_claim)
unfolding finish_update check_chain record_change add_revision add_baseline add_previous add_row
    check_row new_entry new_row is_unchanged adopts adopts_of snapshot_of content_revision
    is_evidence filter_items check_size check_successor present property lookup insert update
    contains make_node_id
finish_returns = refl

finish_update-Finished_example :
    Finished memory memory_env memory-IsDatabase memory-parses node changed start
      (memory_of finished_claim)
finish_update-Finished_example =
    finish_update-Finished memory memory_env memory-IsDatabase memory-parses node changed 0 0 start
      (memory_of finished_claim) finish_returns

abbrev entry : Entry
entry = record {
  sequence = int 1;
  revision = "r";
  recorded_at = "2026-01-01T00:00:00+00:00";
  source = null;
  actor = none;
  reason = none;
  baseline = false;
}

-- A budget for one of two entries
read_history-Ends_example :
    Ends
      (λ p. length p.entries)
      1
      (entry ∷ entry ∷ [])
      2
      (read_history (λ p. length p.entries) 1 (entry ∷ entry ∷ []))
read_history-Ends_example = read_history-Ends (λ p. length p.entries) 1 (entry ∷ entry ∷ [])

-- A claim was deleted, its first revision is kept, and it is created again.
abbrev recreated : Changed
recreated = record {
  previous = none;
  tracked = false;
  current = ("name", str "new") ∷ ("_evidence_state", str "current") ∷ [];
}

abbrev kept_row : Row
kept_row = record {
  id = memory_env.row_id "Claim:a" (int 1);
  node_id = "Claim:a";
  sequence = int 1;
  snapshot = "";
  metadata = "";
}

abbrev has_twice : List Row → Bool
has_twice (r ∷ q ∷ rs) = str_eq r.id q.id
has_twice _ = false

-- The row of its first revision has the primary key of the one that is kept, so the table refuses it.
recreated_repeats_key :
    has_twice
      (memory_of (
        finish_update memory memory_env node
          (some recreated)
          0
          (record start { rows = kept_row ∷ [] }))).rows
    ≡ true
unfolding finish_update check_chain record_change add_revision add_baseline add_previous add_row
    check_row new_entry new_row is_unchanged adopts adopts_of snapshot_of content_revision
    is_evidence filter_items check_size check_successor present property lookup insert update
    contains make_node_id
recreated_repeats_key = refl
