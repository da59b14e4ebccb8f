-- ===== src/Mutations/Apply.antt =====
-- `apply_mutation`, part by part.
use grag.Base.{
  ℕ, ◌+◌, ◌*◌, String, List, [], ◌∷◌, ◌++◌, length, is_empty, Option, none, some, Bool, true, false,
  not, ◌&&◌, ◌||◌, if◌then◌else◌, str_eq,
}
use grag.Base.Dict.{Dict, insert, has}
use grag.Base.Result.{schema_error, conflict, Result, returned, raised, ◌>>◌, ◌>>=◌}
use grag.Limits.{check_size, json_bytes}
use grag.Evidence.{present}
use grag.History.{Database, Env, UpsertNode, Prepared, Changed}
use grag.Mutate.Edges.{upsert_edges}
use grag.Mutate.{Conversions, Warning, upsert_nodes}
use grag.Mutations.{
  Request, Target, Plan, MutationSummary, Receipt, Store, Codec, revision_of, check_expected,
  check_identities, advise_all,
}
use grag.Mutations.Batch.{prepare_each, after_each, finish_each, dispositions}

abbrev pub max_receipts : ℕ
max_receipts = 100_000

abbrev pub max_receipt_bytes : ℕ
max_receipt_bytes = 64 * 1024 * 1024

abbrev pub max_response_bytes : ℕ
max_response_bytes = 1024 * 1024

unfoldable pub find_receipt : String → List Receipt → Option Receipt
find_receipt op [] = none
find_receipt op (r ∷ rs) = let rest = find_receipt op rs in if str_eq r.id op then some r else rest

abbrev pub receipt_sizes : (String → ℕ) → List Receipt → ℕ
receipt_sizes size [] = 0
receipt_sizes size (r ∷ rs) = size r.result + size r.id + size r.digest + receipt_sizes size rs

abbrev pub replay : MutationSummary → MutationSummary
replay m = record m { replayed = true }

module _ (db : Database) (store : Store db) (env : Env) (v : Conversions) (codec : Codec) where
  abbrev pub match_receipt : String → Option Receipt → Result (Option MutationSummary)
  match_receipt digest none = returned none
  match_receipt digest (some r) =
      if not (str_eq r.digest digest)
      then raised (conflict "operation_id_conflict")
      else returned (some (replay (codec.parse_summary r.result)))

  -- `_receipt`
  unfoldable pub receipt : String → String → db.State → Result (Option MutationSummary)
  receipt op digest s =
      if not (store.has_operations s)
      then returned none
      else match_receipt digest (find_receipt op (store.receipts s))

  unfoldable pub revision : Target → db.State → Result String
  revision t s = revision_of env.hashing (store.entities t.identity s)

  -- The last loop of `_prepare`
  unfoldable pub check_guards : List Target → db.State → Result (Unit {0})
  check_guards [] s = returned tt
  check_guards (t ∷ ts) s = check_expected t.expected (revision t s) >> check_guards ts s

  unfoldable pub prepare : Request → db.State → Result Plan
  prepare req s = store.validate req s >>= (λ plan. check_guards plan.targets s >> returned plan)

  abbrev pub is_guarded : List Target → Bool
  is_guarded [] = false
  is_guarded (t ∷ ts) = elim t.expected [ none ↦ is_guarded ts | some _ ↦ true ]

  unfoldable pub revisions : List Target → db.State → Dict String → Result (Dict String)
  revisions [] s d = returned d
  revisions (t ∷ ts) s d = revision t s >>= (λ r. revisions ts s (insert t.identity r d))

  abbrev pub has_operation : Option String → Bool
  has_operation op = elim (present op) [ none ↦ false | some _ ↦ true ]

  unfoldable pub make_table : Option String → db.State → Result db.State
  make_table op s =
      if has_operation op && not (store.has_operations s)
      then store.create_operations s
      else returned s

  abbrev pub upsert_some : List UpsertNode → db.State → Result (List Warning × db.State)
  upsert_some [] s = returned ([], s)
  upsert_some (node ∷ nodes) s = upsert_nodes db v (node ∷ nodes) s

  abbrev pub edges_some : Plan → db.State → Result (List Warning × db.State)
  edges_some plan s =
      if is_empty plan.edges then returned ([], s) else upsert_edges db v plan.edges (none, none) s

  abbrev pub tracked_at : db.State → String → Bool
  tracked_at s label = has "_evidence_seq" (db.columns s label)

  abbrev pub given_revisions : Option String → Plan → db.State → Result (Dict String)
  given_revisions op plan s =
      if has_operation op || is_guarded plan.targets
      then revisions plan.targets s []
      else returned []

  abbrev pub Items : Type 0
  Items = List (UpsertNode × Option Prepared) × db.State

  -- The warnings, the advice and the history of the summary, with the database
  abbrev pub Written : Type 0
  Written = List Warning × List Warning × Dict String × db.State

  abbrev pub recorded_items :
      Items
      → List Warning
      → List (UpsertNode × Option Changed) × db.State
      → ℕ × db.State
      → Result Written
  recorded_items p ws a f = returned (ws, advise_all env codec a.0, dispositions db p.0 p.1 [], f.1)

  unfoldable pub record_items :
      Items → List Warning → List (UpsertNode × Option Changed) × db.State → Result Written
  record_items p ws a = finish_each db env a.0 0 a.1 >>= recorded_items p ws a

  unfoldable pub settle_items : Items → List Warning × db.State → Result Written
  settle_items p u = after_each db env p.0 u.1 >>= record_items p u.0

  unfoldable pub write_items : List UpsertNode → Items → db.State → Result Written
  write_items nodes p s = upsert_some nodes s >>= settle_items p

  unfoldable pub write_prepared : List UpsertNode → Option String → Items → Result Written
  write_prepared nodes op p = check_identities p.0 >> (make_table op p.1 >>= write_items nodes p)

  -- The nodes, from the evidence that is prepared to the last revision that is recorded
  unfoldable pub write_nodes : List UpsertNode → Option String → db.State → Result Written
  write_nodes nodes op s = prepare_each db (tracked_at s) nodes s >>= write_prepared nodes op

  abbrev pub summary_of :
      Plan
      → Option String
      → Written
      → List Warning × db.State
      → Dict String
      → Result (MutationSummary × db.State)
  summary_of plan op (ws, advised, history, s) e r = returned (
    record {
      nodes = length plan.nodes;
      edges = length plan.edges;
      warnings = plan.warnings ++ advised ++ ws ++ e.0;
      operation_id = op;
      replayed = false;
      revisions = r;
      history = history;
    },
    e.1,
  )

  unfoldable pub summarize :
      Plan → Option String → Written → List Warning × db.State → Result (MutationSummary × db.State)
  summarize plan op w e = given_revisions op plan e.1 >>= summary_of plan op w e

  -- The rest of the summary
  unfoldable pub write_edges : Plan → Option String → Written → Result (MutationSummary × db.State)
  write_edges plan op w = edges_some plan w.3 >>= summarize plan op w

  unfoldable pub check_receipt : String → ℕ → db.State → Result (Unit {0})
  check_receipt op bytes s =
      let there = store.receipts s in
      check_size "operation_receipts" (length there + 1) max_receipts
      >> check_size "operation_receipt_bytes"
          (receipt_sizes env.size there * 4 + bytes + env.utf8 op + 64) max_receipt_bytes

  abbrev pub new_receipt : String → String → MutationSummary → Receipt
  new_receipt op digest m = record { id = op; digest = digest; result = codec.summary_json m }

  -- The limits on the response and on the receipts, and the receipt of an operation
  unfoldable pub keep_receipt :
      Option (String × String) → MutationSummary → db.State → Result db.State
  keep_receipt none m s =
      json_bytes (codec.encoding m) max_response_bytes "mutation_response_bytes"
      >>= (λ _. returned s)
  keep_receipt (some (op, digest)) m s =
      json_bytes (codec.encoding m) max_response_bytes "mutation_response_bytes"
      >>= (λ bytes. check_receipt op bytes s >> store.create_receipt (new_receipt op digest m) s)

  unfoldable pub compose : Request → db.State → Result (MutationSummary × db.State)
  compose req s =
      prepare req s
      >>= (λ plan. write_nodes plan.nodes req.operation_id s >>= write_edges plan req.operation_id)

  -- The code under `with engine.atomic_writes()`
  unfoldable pub body :
      Request → Option (String × String) → db.State → Result (MutationSummary × db.State)
  body req key s = compose req s >>= (λ r. keep_receipt key r.0 r.1 >>= (λ s'. returned (r.0, s')))

  abbrev pub committed :
      MutationSummary → Result (Unit {0}) × db.State → Result MutationSummary × db.State
  committed m (returned _, t) = (returned m, t)
  committed m (raised e, t) = (raised e, t)

  -- A transaction: nothing of it is left where the body raises.
  unfoldable pub finish :
      db.State → Result (MutationSummary × db.State) → Result MutationSummary × db.State
  finish s (raised e) = (raised e, s)
  finish s (returned (m, s')) = committed m (store.commit s s')

  abbrev pub replay_or_run :
      Request
      → String
      → String
      → db.State
      → Result (Option MutationSummary)
      → Result MutationSummary × db.State
  replay_or_run req op digest s (raised e) = (raised e, s)
  replay_or_run req op digest s (returned (some m)) = (returned m, s)
  replay_or_run req op digest s (returned none) = finish s (body req (some (op, digest)) s)

  abbrev pub digest_of : String → String
  digest_of encoded = env.hashing.sha256 encoded

  abbrev pub run_operation :
      Request → String → db.State → Option String → Result MutationSummary × db.State
  run_operation req op s none = (raised schema_error, s)
  run_operation req op s (some encoded) =
      replay_or_run req op (digest_of encoded) s (receipt op (digest_of encoded) s)

  abbrev pub run_request : Request → db.State → Option String → Result MutationSummary × db.State
  run_request req s none = finish s (body req none s)
  run_request req s (some op) = run_operation req op s (codec.canonical req)

  -- `apply_mutation`, not within a transaction
  unfoldable pub apply_mutation : Request → db.State → Result MutationSummary × db.State
  apply_mutation req s = run_request req s (present req.operation_id)
