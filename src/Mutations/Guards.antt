-- ===== src/Mutations/Guards.antt =====
-- What a write has tested before its first statement, and what is left of one that fails.
use grag.Base.{
  String, List, [], ◌∷◌, Option, none, some, true, str_eq, ◌≡◌, refl, sym, ap, inl, inr, arith,
  eq_iff, some_inj, none-ne-some, Bool-cases, All,
}
use grag.Base.Values.{Props}
use grag.Base.Result.{
  GragError, schema_error, Result, returned, raised, ◌>>◌, ◌>>=◌, bind-returned, then-returned,
  returned_inj, raised-ne-returned,
}
use grag.Evidence.{present}
use grag.Revisions.{Hashing, content_revision}
use grag.History.{Database, Env}
use grag.Mutate.{Conversions}
use grag.Mutations.{
  Request, Target, Plan, MutationSummary, Receipt, Store, Codec, revision_of, expect,
  check_expected,
}
use grag.Mutations.Apply.{
  find_receipt, replay, match_receipt, receipt, revision, check_guards, prepare, write_nodes,
  write_edges, keep_receipt, compose, body, committed, finish, replay_or_run, digest_of,
  run_operation, run_request, apply_mutation,
}

-- The rows of a target are as the caller expects: none, or a single one with the revision.
pub data Meets (h : Hashing) : Option String → List Props → Type 0 where
  unguarded : {rows : List Props} → Meets h none rows
  absent : Meets h (some "absent") []
  at_revision : (row : Props) → Meets h (some (content_revision h row)) (row ∷ [])

revision_of-Meets :
    (h : Hashing) (rows : List Props) (r : String)
    → revision_of h rows ≡ returned r
    → Meets h (some r) rows
unfolding revision_of
revision_of-Meets h [] r e = rw (← returned_inj e) absent
revision_of-Meets h (row ∷ []) r e = rw (← returned_inj e) (at_revision row)
revision_of-Meets h (row ∷ x ∷ more) r e = absurd (raised-ne-returned e)

expect-returned : (a b : String) → expect a b ≡ returned tt → b ≡ a
expect-returned a b h = ground (arith, eq_iff b a, h)

module _ (db : Database) (store : Store db) (env : Env) (v : Conversions) (codec : Codec) where
  abbrev pub Holds : db.State → Target → Type 0
  Holds s t = Meets env.hashing t.expected (store.entities t.identity s)

  check_expected-Meets :
      (o : Option String) (t : Target) (s : db.State)
      → check_expected o (revision db store env v codec t s) ≡ returned tt
      → Meets env.hashing o (store.entities t.identity s)
  unfolding revision
  check_expected-Meets none t s h = unguarded
  check_expected-Meets (some x) t s h =
      let (r, found, e) =
        bind-returned (revision_of env.hashing (store.entities t.identity s)) (expect x) tt h in
      rw (← expect-returned x r e) (revision_of-Meets env.hashing _ r found)

  check_guards-All :
      (ts : List Target) (s : db.State)
      → check_guards db store env v codec ts s ≡ returned tt
      → All (Holds s) ts
  unfolding check_guards
  check_guards-All [] s h = tt
  check_guards-All (t ∷ ts) s h =
      let (a, b) =
        then-returned (check_expected t.expected (revision db store env v codec t s))
          (check_guards db store env v codec ts s) tt h in
      (check_expected-Meets t.expected t s a, check_guards-All ts s b)

  -- What `_prepare` made of the request, whose guards held before any write
  pub record Checked (req : Request) (s : db.State) : Type 0 where
    pub plan : Plan
    pub valid : store.validate req s ≡ returned plan
    pub met : All (Holds s) plan.targets

  prepare-Checked :
      (req : Request) (plan : Plan) (s : db.State)
      → prepare db store env v codec req s ≡ returned plan
      → Checked req s
  unfolding prepare
  prepare-Checked req plan s h =
      let (p, valid, h1) =
        bind-returned (store.validate req s)
          (λ p. check_guards db store env v codec p.targets s >> returned p) plan h in
      let (held, same) =
        then-returned (check_guards db store env v codec p.targets s) (returned p) plan h1 in
      record { plan = p; valid = valid; met = check_guards-All p.targets s held }

  body-Checked :
      (req : Request) (key : Option (String × String)) (r : MutationSummary × db.State)
      (s : db.State)
      → body db store env v codec req key s ≡ returned r
      → Checked req s
  unfolding body compose
  body-Checked req key r s h =
      let (c, composed, h1) =
        bind-returned (compose db store env v codec req s)
          (λ r. keep_receipt db store env v codec key r.0 r.1 >>= (λ t. returned (r.0, t))) r h in
      let (plan, prepared, h2) =
        bind-returned (prepare db store env v codec req s)
          (λ plan.
            write_nodes db store env v codec plan.nodes req.operation_id s
            >>= write_edges db store env v codec plan req.operation_id)
          c composed in
      prepare-Checked req plan s prepared

  -- How `apply_mutation` ends: it replays, it commits what the body has written, it raises and nothing
  -- is changed, or the commit raises.
  pub data Ending (req : Request) (s : db.State) : Result MutationSummary × db.State → Type 0 where
    replays : (m : MutationSummary) → m.replayed ≡ true → Ending req s (returned m, s)
    commits :
        {m : MutationSummary} {t u : db.State} (key : Option (String × String))
        → body db store env v codec req key s ≡ returned (m, t)
        → store.commit s t ≡ (returned tt, u)
        → Checked req s
        → Ending req s (returned m, u)
    rolls_back : (e : GragError) → Ending req s (raised e, s)
    commit_raises :
        {m : MutationSummary} {e : GragError} {t u : db.State} (key : Option (String × String))
        → body db store env v codec req key s ≡ returned (m, t)
        → store.commit s t ≡ (raised e, u)
        → Ending req s (raised e, u)

  committed-Ending :
      (req : Request) (s : db.State) (key : Option (String × String)) (m : MutationSummary)
      (t : db.State) (o : Result (Unit {0}) × db.State)
      → body db store env v codec req key s ≡ returned (m, t)
      → store.commit s t ≡ o
      → Ending req s (committed db store env v codec m o)
  committed-Ending req s key m t (returned tt, u) b c =
      commits key b c (body-Checked req key (m, t) s b)
  committed-Ending req s key m t (raised e, u) b c = commit_raises key b c

  finish-Ending :
      (req : Request) (s : db.State) (key : Option (String × String))
      (r : Result (MutationSummary × db.State))
      → body db store env v codec req key s ≡ r
      → Ending req s (finish db store env v codec s r)
  unfolding finish
  finish-Ending req s key (raised e) b = rolls_back e
  finish-Ending req s key (returned (m, t)) b =
      committed-Ending req s key m t (store.commit s t) b refl

  operation-Ending :
      (req : Request) (op digest : String) (s : db.State) (r : Result (Option MutationSummary))
      → receipt db store env v codec op digest s ≡ r
      → ((m : MutationSummary) → r ≡ returned (some m) → m.replayed ≡ true)
      → Ending req s (replay_or_run db store env v codec req op digest s r)
  operation-Ending req op digest s (raised e) h k = rolls_back e
  operation-Ending req op digest s (returned (some m)) h k = replays m (k m refl)
  operation-Ending req op digest s (returned none) h k =
      finish-Ending req s (some (op, digest)) _ refl

  match_receipt-replayed :
      (digest : String) (o : Option Receipt) (m : MutationSummary)
      → match_receipt db store env v codec digest o ≡ returned (some m)
      → m.replayed ≡ true
  match_receipt-replayed digest none m h = absurd (none-ne-some (returned_inj h))
  match_receipt-replayed digest (some r) m h = elim (Bool-cases (str_eq r.digest digest)) [
    | inl e ↦
        let parsed : replay (codec.parse_summary r.result) ≡ m =
          some_inj (returned_inj (rw e at h)) in
        sym (ap (λ (n : MutationSummary). n.replayed) parsed)
    | inr e ↦ absurd (raised-ne-returned (rw e at h))
  ]

  receipt-replayed :
      (op digest : String) (s : db.State) (m : MutationSummary)
      → receipt db store env v codec op digest s ≡ returned (some m)
      → m.replayed ≡ true
  unfolding receipt
  receipt-replayed op digest s m h = elim (Bool-cases (store.has_operations s)) [
    | inl e ↦ match_receipt-replayed digest (find_receipt op (store.receipts s)) m (rw e at h)
    | inr e ↦ absurd (none-ne-some (returned_inj (rw e at h)))
  ]

  run_operation-Ending :
      (req : Request) (op : String) (s : db.State) (o : Option String)
      → Ending req s (run_operation db store env v codec req op s o)
  run_operation-Ending req op s none = rolls_back schema_error
  run_operation-Ending req op s (some encoded) =
      operation-Ending req op (digest_of db store env v codec encoded) s _ refl
        (receipt-replayed op (digest_of db store env v codec encoded) s)

  run_request-Ending :
      (req : Request) (s : db.State) (o : Option String)
      → Ending req s (run_request db store env v codec req s o)
  run_request-Ending req s none = finish-Ending req s none _ refl
  run_request-Ending req s (some op) = run_operation-Ending req op s (codec.canonical req)

  -- A call of `apply_mutation` outside a transaction ends in one of four ways. It replays a summary and
  -- changes nothing; it commits what its body has written, and then each guard of the request held
  -- in the database before the first write: the entity was absent, or the only one of its identity
  -- and at the expected revision; it raises and changes nothing; or the body has returned and the
  -- commit raises.
  pub apply_mutation-Ending :
      (req : Request) (s : db.State) → Ending req s (apply_mutation db store env v codec req s)
  unfolding apply_mutation
  apply_mutation-Ending req s = run_request-Ending req s (present req.operation_id)
