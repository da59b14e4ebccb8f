-- ===== src/Mutations/Replay.antt =====
-- What a request finds once an operation with its id has succeeded.
use grag.Base.{
  String, ◌∷◌, Option, none, some, true, if◌then◌else◌, str_eq, ◌≡◌, refl, ap, inl, inr, arith,
  eq_iff, some_inj, none-ne-some, pair-eq, Bool-cases,
}
use grag.Base.Result.{
  schema_error, conflict, Result, returned, raised, ◌>>◌, ◌>>=◌, bind-returned, then-returned,
  returned_inj, raised-ne-returned,
}
use grag.Limits.{json_bytes}
use grag.History.{Database, Env}
use grag.Mutate.{Conversions}
use grag.Mutations.{Request, MutationSummary, Receipt, Store, Codec}
use grag.Mutations.Apply.{
  find_receipt, replay, match_receipt, receipt, check_receipt, new_receipt, keep_receipt, compose,
  body, committed, finish, replay_or_run, digest_of, run_operation, max_response_bytes,
}
use mathlib.Core.Path.{subst}

-- A receipt is created in a table that is there, and a commit that returns keeps what the
-- transaction has written.
pub record IsStore {db : Database} (store : Store db) : Type 0 where
  pub create_receipts :
      (r : Receipt) (s s' : db.State)
      → store.create_receipt r s ≡ returned s'
      → store.receipts s' ≡ r ∷ store.receipts s
  pub create_operations_there :
      (r : Receipt) (s s' : db.State)
      → store.create_receipt r s ≡ returned s'
      → store.has_operations s' ≡ true
  pub commit_kept : (s t u : db.State) → store.commit s t ≡ (returned tt, u) → u ≡ t

module _ (db : Database) (store : Store db) (env : Env) (v : Conversions) (codec : Codec) where
  -- The receipt of an operation is there.
  pub record Recorded (op digest : String) (m : MutationSummary) (s : db.State) : Type 0 where
    pub there : store.has_operations s ≡ true
    pub row : Receipt
    pub found : find_receipt op (store.receipts s) ≡ some row
    pub same : row.digest ≡ digest
    pub parsed : replay (codec.parse_summary row.result) ≡ replay m

  module _ (laws : IsStore store)
      (parses : (m : MutationSummary) → codec.parse_summary (codec.summary_json m) ≡ m) where
    keep_receipt-Recorded :
        (op digest : String) (m : MutationSummary) (s s' : db.State)
        → keep_receipt db store env v codec (some (op, digest)) m s ≡ returned s'
        → Recorded op digest m s'
    unfolding keep_receipt find_receipt
    keep_receipt-Recorded op digest m s s' h =
        let (bytes, fits, h1) =
          bind-returned (json_bytes (codec.encoding m) max_response_bytes "mutation_response_bytes")
            (λ bytes.
              check_receipt db store env v codec op bytes s
              >> store.create_receipt (new_receipt db store env v codec op digest m) s)
            s' h in
        let (room, made) =
          then-returned (check_receipt db store env v codec op bytes s)
            (store.create_receipt (new_receipt db store env v codec op digest m) s) s' h1 in
        record {
          there = laws.create_operations_there _ s s' made;
          row = new_receipt db store env v codec op digest m;
          found = rw (laws.create_receipts _ s s' made) (ground (arith, eq_iff op op));
          same = refl;
          parsed = ap replay (parses m);
        }

    abbrev Outcome : Type 0
    Outcome = Result MutationSummary × db.State

    committed-returned :
        (m n : MutationSummary) (o : Result (Unit {0}) × db.State) (u : db.State)
        → committed db store env v codec n o ≡ (returned m, u)
        → (n ≡ m) × (o ≡ (returned tt, u))
    committed-returned m n (returned tt, t) u h =
        let (e, same) = pair-eq (returned n, t) (returned m, u) h in (returned_inj e, rw same)
    committed-returned m n (raised x, t) u h =
        absurd (raised-ne-returned (pair-eq (raised x, t) (returned m, u) h).0)

    finish-returned :
        (s u : db.State) (r : Result (MutationSummary × db.State)) (m : MutationSummary)
        → finish db store env v codec s r ≡ (returned m, u)
        → r ≡ returned (m, u)
    unfolding finish
    finish-returned s u (raised e) m h =
        absurd (raised-ne-returned (pair-eq (raised e, s) (returned m, u) h).0)
    finish-returned s u (returned (n, t)) m h =
        let (same, done) = committed-returned m n (store.commit s t) u h in
        rw (same, laws.commit_kept s t u done)

    body-Recorded :
        (req : Request) (op digest : String) (m : MutationSummary) (s s' : db.State)
        → body db store env v codec req (some (op, digest)) s ≡ returned (m, s')
        → Recorded op digest m s'
    unfolding body
    body-Recorded req op digest m s s' h =
        let (r, composed, h1) =
          bind-returned (compose db store env v codec req s)
            (λ r.
              keep_receipt db store env v codec (some (op, digest)) r.0 r.1
              >>= (λ t. returned (r.0, t)))
            (m, s') h in
        let (t, kept, last) =
          bind-returned (keep_receipt db store env v codec (some (op, digest)) r.0 r.1)
            (λ t. returned (r.0, t)) (m, s') h1 in
        let (same, state) = pair-eq (r.0, t) (m, s') (returned_inj last) in
        let base : Recorded op digest r.0 t = keep_receipt-Recorded op digest r.0 r.1 t kept in
        subst (λ x. Recorded op digest m x) state (subst (λ x. Recorded op digest x t) same base)

    match_receipt-Recorded :
        (op digest : String) (m : MutationSummary) (s : db.State) (o : Option Receipt)
        → store.has_operations s ≡ true
        → find_receipt op (store.receipts s) ≡ o
        → match_receipt db store env v codec digest o ≡ returned (some m)
        → Recorded op digest m s
    match_receipt-Recorded op digest m s none there f h = absurd cc
    match_receipt-Recorded op digest m s (some r) there f h =
        elim (Bool-cases (str_eq r.digest digest)) [
          | inl e ↦
              let parsed : replay (codec.parse_summary r.result) ≡ m =
                some_inj (returned_inj (rw e at h)) in
              record {
                there = there;
                row = r;
                found = f;
                same = (eq_iff r.digest digest).0 e;
                parsed = ap replay parsed;
              }
          | inr e ↦ absurd (raised-ne-returned (rw e at h))
        ]

    receipt-Recorded :
        (op digest : String) (m : MutationSummary) (s : db.State)
        → receipt db store env v codec op digest s ≡ returned (some m)
        → Recorded op digest m s
    unfolding receipt
    receipt-Recorded op digest m s h = elim (Bool-cases (store.has_operations s)) [
      | inl e ↦
          match_receipt-Recorded op digest m s (find_receipt op (store.receipts s)) e refl
            (rw e at h)
      | inr e ↦ absurd (none-ne-some (returned_inj (rw e at h)))
    ]

    run-Recorded :
        (req : Request) (op digest : String) (m : MutationSummary) (s s' : db.State)
        (r : Result (Option MutationSummary))
        → receipt db store env v codec op digest s ≡ r
        → replay_or_run db store env v codec req op digest s r ≡ (returned m, s')
        → Recorded op digest m s'
    run-Recorded req op digest m s s' (raised e) f h =
        absurd (raised-ne-returned (pair-eq (raised e, s) (returned m, s') h).0)
    run-Recorded req op digest m s s' (returned (some n)) f h =
        let (same, state) = pair-eq (returned n, s) (returned m, s') h in
        let base : Recorded op digest n s = receipt-Recorded op digest n s f in
        subst (λ x. Recorded op digest m x) state
          (subst (λ x. Recorded op digest x s) (returned_inj same) base)
    run-Recorded req op digest m s s' (returned none) f h =
        body-Recorded req op digest m s s'
          (finish-returned s s' (body db store env v codec req (some (op, digest)) s) m h)

    pub operation-Recorded :
        (req : Request) (op : String) (m : MutationSummary) (s s' : db.State) (o : Option String)
        → codec.canonical req ≡ o
        → run_operation db store env v codec req op s o ≡ (returned m, s')
        → (encoded : String) × (codec.canonical req ≡ some encoded)
          × Recorded op (digest_of db store env v codec encoded) m s'
    operation-Recorded req op m s s' none c h =
        absurd (raised-ne-returned (pair-eq (raised schema_error, s) (returned m, s') h).0)
    operation-Recorded req op m s s' (some encoded) c h = (
      encoded,
      c,
      run-Recorded req op (digest_of db store env v codec encoded) m s s'
          (receipt db store env v codec op (digest_of db store env v codec encoded) s) refl h,
    )

    -- A later request with the same id, where the receipt is still there
    pub receipt-again :
        (op digest other_digest : String) (m : MutationSummary) (s' s : db.State)
        → Recorded op digest m s'
        → store.has_operations s ≡ true
        → find_receipt op (store.receipts s) ≡ find_receipt op (store.receipts s')
        → receipt db store env v codec op other_digest s ≡ (
            if str_eq digest other_digest
            then returned (some (replay m))
            else raised (conflict "operation_id_conflict"))
    unfolding receipt
    receipt-again op digest other m s' s r there kept =
        rw (receipt, there, kept, r.found, ← r.same, ← r.parsed) (ground arith)
