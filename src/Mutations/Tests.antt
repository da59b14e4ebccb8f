-- ===== src/Mutations/Tests.antt =====
-- A write with an operation id, in memory, and another one with the same id.
use grag.Base.{String, [], ◌∷◌, none, some, Bool, true, false, if◌then◌else◌, str_eq, ◌≡◌, refl}
use grag.Evidence.{present, ended_state, check_successor}
use grag.Mutations.Apply.{
  receipt, finish, body, compose, prepare, check_guards, revision, write_nodes, write_prepared,
  write_items, settle_items, record_items, make_table, write_edges, summarize, revisions,
  keep_receipt, find_receipt, check_receipt,
}
use grag.Mutations.{revision_of, check_identities, distinct, advice, disposition}
use grag.Base.Dict.{lookup, contains, keys, insert, update, filter_items}
use grag.Mutations.Batch.{prepare_each, after_each, finish_each, dispositions}
use grag.History.Update.{
  before_update, lacks_revision, ensure, add_columns, ensure_table, after_update, after_found,
  assign, finish_update, check_chain, record_change, add_revision, add_baseline, add_previous,
  add_row, check_row, new_row, new_entry,
}
use grag.Mutate.{
  upsert_nodes, upsert_each, upsert_node, upsert_with, sanitize_props, judge, coerce_value,
  coerce_typed, merge, create_sets, match_sets, embeds_other, text_changed,
}
use grag.History.{
  assignments, anchor, adopt, patch, claim_changed, property, is_unchanged, adopts, adopts_of,
  snapshot_of,
}
use grag.Limits.{check_size, json_bytes, count_bytes}
use grag.Revisions.{content_revision, is_evidence}
use grag.Graph.{make_node_id}
use grag.Identifiers.{
  validate_identifier, is_identifier, all_continue, starts_identifier, continues_identifier,
}
use grag.Base.Values.{str}
use grag.Base.Result.{conflict, Result, returned, raised}
use grag.History.{EvidenceUpdate}
use grag.History.Memory.{Memory, memory, memory_env, memory-IsDatabase, memory-parses, props_text}
use grag.History.Steps.{number}
use grag.Mutate.{Conversions}
use grag.Mutations.{Request, MutationSummary}
use grag.Mutations.Apply.{replay, apply_mutation}
use grag.Mutations.Once.{apply_mutation-once}
use grag.Mutations.Guards.{Ending, apply_mutation-Ending}
use grag.Mutations.Numbering.{apply_mutation-IsNumbered}
use grag.Mutations.Rounds.{IsNumbered}
use grag.History.Laws.{notes, numbers, untracked}
use grag.Mutations.Memory.{
  memory_store, memory_store-IsStore, memory_store-IsApart, of_fields, codec, codec-parses,
}

abbrev plain : Conversions
plain = record {
  upper = λ s. s;
  parse_int = λ s. none;
  to_float = λ v. none;
  to_date = λ t v. none;
  same = λ a b. false;
}

abbrev review : EvidenceUpdate
review = record {
  state = none;
  review = some (str "accepted");
  expires_at = none;
  superseded_by = none;
  actor = none;
  reason = none;
}

abbrev request : String → Request
request name = record {
  nodes =
      record {
        label = "Claim";
        key = "a";
        properties = ("name", str name) ∷ [];
        source = none;
        expected_revision = some "absent";
        evidence = some review;
      }
      ∷ [];
  edges = [];
  operation_id = some "op";
}

abbrev start : Memory
start = record { nodes = []; rows = []; receipts = []; operations = false }

abbrev first_run : Result MutationSummary × Memory
first_run = apply_mutation memory memory_store memory_env plain codec (request "one") start

abbrev first_summary : Result MutationSummary → MutationSummary
first_summary (returned m) = m
first_summary (raised e) = of_fields (0, (0, ([], (none, (false, ([], []))))))

abbrev is_returned : Result MutationSummary → Bool
is_returned (returned m) = true
is_returned (raised e) = false

returned_of :
    (o : Result MutationSummary × Memory)
    → is_returned o.0 ≡ true
    → o ≡ (returned (first_summary o.0), o.1)
returned_of (returned m, s) h = refl
returned_of (raised e, s) h = absurd cc

first_returns : is_returned first_run.0 ≡ true
unfolding apply_mutation present receipt finish body compose prepare check_guards revision
    revision_of lookup write_nodes write_prepared write_items settle_items record_items prepare_each
    before_update lacks_revision ensure add_columns contains keys ensure_table check_identities
    distinct make_table upsert_nodes upsert_each upsert_node upsert_with sanitize_props judge
    coerce_value coerce_typed merge create_sets match_sets insert update after_each after_update
    after_found assign assignments anchor adopt patch claim_changed property ended_state finish_each
    finish_update check_chain check_successor record_change is_unchanged add_revision add_baseline
    add_previous adopts adopts_of add_row check_row check_size new_row new_entry snapshot_of
    filter_items content_revision is_evidence advice disposition dispositions write_edges summarize
    revisions keep_receipt json_bytes count_bytes find_receipt make_node_id validate_identifier
    is_identifier all_continue starts_identifier continues_identifier embeds_other text_changed
    check_receipt
first_returns = refl

first_creates : first_run.1.operations ≡ true
unfolding apply_mutation present receipt finish body compose prepare check_guards revision
    revision_of lookup write_nodes write_prepared write_items settle_items record_items prepare_each
    before_update lacks_revision ensure add_columns contains keys ensure_table check_identities
    distinct make_table upsert_nodes upsert_each upsert_node upsert_with sanitize_props judge
    coerce_value coerce_typed merge create_sets match_sets insert update after_each after_update
    after_found assign assignments anchor adopt patch claim_changed property ended_state finish_each
    finish_update check_chain check_successor record_change is_unchanged add_revision add_baseline
    add_previous adopts adopts_of add_row check_row check_size new_row new_entry snapshot_of
    filter_items content_revision is_evidence advice disposition dispositions write_edges summarize
    revisions keep_receipt json_bytes count_bytes find_receipt make_node_id validate_identifier
    is_identifier all_continue starts_identifier continues_identifier embeds_other text_changed
    check_receipt
first_creates = refl

id_present : present (some "op") ≡ some "op"
unfolding present
id_present = refl

abbrev text_of : String → String
text_of name = props_text (("name", str name) ∷ [])

-- The same id with another request
apply_mutation-once_example :
    (original : String) × (codec.canonical (request "one") ≡ some original)
    × (apply_mutation memory memory_store memory_env plain codec (request "two") first_run.1 ≡ (
        if str_eq (memory_env.hashing.sha256 original) (memory_env.hashing.sha256 (text_of "two"))
        then (returned (replay (first_summary first_run.0)), first_run.1)
        else (raised (conflict "operation_id_conflict"), first_run.1)))
apply_mutation-once_example =
    apply_mutation-once memory memory_store memory_env plain codec memory_store-IsStore codec-parses
      (request "one") (request "two") "op" (text_of "two") (first_summary first_run.0) start
      first_run.1 first_run.1 id_present (returned_of first_run first_returns) id_present refl
      first_creates refl

apply_mutation-Ending_example :
    Ending memory memory_store memory_env plain codec (request "one") start first_run
apply_mutation-Ending_example =
    apply_mutation-Ending memory memory_store memory_env plain codec (request "one") start

start-IsNumbered : IsNumbered memory memory_env "Claim:a" start
unfolding notes numbers number lookup property
start-IsNumbered = untracked

apply_mutation-IsNumbered_example : IsNumbered memory memory_env "Claim:a" first_run.1
apply_mutation-IsNumbered_example =
    apply_mutation-IsNumbered memory memory_store memory_env plain codec memory-IsDatabase
      memory_store-IsApart memory-parses "Claim:a" (request "one") start start-IsNumbered
