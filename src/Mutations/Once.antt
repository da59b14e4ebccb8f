-- ===== src/Mutations/Once.antt =====
-- An operation id stands for one request.
use grag.Base.{
  String, Option, some, true, if◌then◌else◌, str_eq, ◌≡◌, refl, sym, ◌∙◌, Bool-cases, inl, inr,
}
use grag.Base.Result.{conflict, Result, returned, raised}
use grag.Evidence.{present}
use grag.History.{Database, Env}
use grag.Mutate.{Conversions}
use grag.Mutations.{Request, MutationSummary, Store, Codec}
use grag.Mutations.Apply.{find_receipt, replay, replay_or_run, run_operation, apply_mutation}
use grag.Mutations.Replay.{IsStore, operation-Recorded, receipt-again}

module _ (db : Database) (store : Store db) (env : Env) (v : Conversions) (codec : Codec) where
  abbrev Outcome : Type 0
  Outcome = Result MutationSummary × db.State

  run-again :
      (req : Request) (op digest other : String) (m : MutationSummary) (s : db.State)
      (r : Result (Option MutationSummary))
      → r ≡ (
          if str_eq digest other
          then returned (some (replay m))
          else raised (conflict "operation_id_conflict"))
      → replay_or_run db store env v codec req op other s r ≡ (
          if str_eq digest other
          then (returned (replay m), s)
          else (raised (conflict "operation_id_conflict"), s))
  run-again req op digest other m s r h = elim (Bool-cases (str_eq digest other)) [
    | inl e ↦ rw (h, e)
    | inr e ↦ rw (h, e)
  ]

  apply-runs :
      (req : Request) (op : String) (s : db.State)
      → present req.operation_id ≡ some op
      → apply_mutation db store env v codec req s
        ≡ run_operation db store env v codec req op s (codec.canonical req)
  unfolding apply_mutation
  apply-runs req op s h = rw (apply_mutation, h)

  -- On a store that keeps the receipts it creates and what a commit that returns has written, and with
  -- summaries read as they were written: once `apply_mutation` has returned for a request with an
  -- operation id, and as long as its receipt is there, a request with that id, whose canonical JSON
  -- exists, writes nothing. Where the two JSONs have the same hash it returns the first summary,
  -- marked as replayed, and otherwise it raises the conflict of the id.
  pub apply_mutation-once :
      (laws : IsStore store)
      (parses : (m : MutationSummary) → codec.parse_summary (codec.summary_json m) ≡ m)
      (first later : Request) (op encoded : String) (m : MutationSummary) (s s' t : db.State)
      → present first.operation_id ≡ some op
      → apply_mutation db store env v codec first s ≡ (returned m, s')
      → present later.operation_id ≡ some op
      → codec.canonical later ≡ some encoded
      → store.has_operations t ≡ true
      → find_receipt op (store.receipts t) ≡ find_receipt op (store.receipts s')
      → (original : String) × (codec.canonical first ≡ some original)
        × (apply_mutation db store env v codec later t ≡ (
            if str_eq (env.hashing.sha256 original) (env.hashing.sha256 encoded)
            then (returned (replay m), t)
            else (raised (conflict "operation_id_conflict"), t)))
  apply_mutation-once laws parses first later op encoded m s s' t h ran k canonical there kept =
      let (original, c, r) =
        operation-Recorded db store env v codec laws parses first op m s s' (codec.canonical first)
          refl (sym (apply-runs first op s h) ∙ ran) in
      let again =
        receipt-again db store env v codec laws parses op (env.hashing.sha256 original)
          (env.hashing.sha256 encoded) m s' t r there kept in
      (
        original,
        c,
        apply-runs later op t k
            ∙ rw canonical (
                run-again later op (env.hashing.sha256 original) (env.hashing.sha256 encoded) m t _
                  again),
      )
