-- ===== src/Mutations/Numbering.antt =====
-- Whatever `apply_mutation` does, the numbers of an id's revisions have no gap.
use grag.Base.{String, List, Option, none, some, ◌≡◌, ◌⊎◌, inl, inr, pair-eq}
use grag.Base.Dict.{Dict}
use grag.Base.Result.{Result, returned, ◌>>◌, ◌>>=◌, bind-returned, then-returned, returned_inj}
use grag.Limits.{json_bytes}
use grag.History.{Database, Env, Entry}
use grag.History.Laws.{IsDatabase}
use grag.History.Steps.{SameHistory, SameHistory-refl, SameHistory-trans}
use grag.Mutate.{Conversions, Warning}
use grag.Mutations.{Request, Plan, MutationSummary, Store, Codec}
use grag.Mutations.Apply.{
  prepare, edges_some, given_revisions, write_nodes, summary_of, summarize, write_edges,
  check_receipt, new_receipt, keep_receipt, compose, body, apply_mutation, max_response_bytes,
}
use grag.Mutations.Guards.{
  Ending, replays, commits, rolls_back, commit_raises, apply_mutation-Ending,
}
use grag.Mutations.Writing.{IsApart, Kept, edges_some-SameHistory, write_nodes-IsNumbered}
use grag.Mutations.Rounds.{IsNumbered, IsNumbered-kept}
use mathlib.Core.Path.{subst}

module _ (db : Database) (store : Store db) (env : Env) (v : Conversions) (codec : Codec)
    (laws : IsDatabase db) (apart : IsApart store)
    (parses : (e : Entry) → env.parse_entry (env.entry_json e) ≡ e) (id : String) where
  write_edges-SameHistory :
      (plan : Plan) (op : Option String) (w : List Warning × List Warning × Dict String × db.State)
      (r : MutationSummary × db.State)
      → write_edges db store env v codec plan op w ≡ returned r
      → SameHistory db w.3 r.1
  unfolding write_edges summarize
  write_edges-SameHistory plan op w r h =
      let (e, edges, h1) =
        bind-returned (edges_some db store env v codec plan w.3)
          (summarize db store env v codec plan op w) r h in
      let (d, found, last) =
        bind-returned (given_revisions db store env v codec op plan e.1)
          (summary_of db store env v codec plan op w e) r h1 in
      subst (λ (x : MutationSummary × db.State). SameHistory db w.3 x.1) (returned_inj last)
        (edges_some-SameHistory db store env v codec laws apart parses id plan w.3 e edges)

  keep_receipt-SameHistory :
      (key : Option (String × String)) (m : MutationSummary) (s s' : db.State)
      → keep_receipt db store env v codec key m s ≡ returned s'
      → SameHistory db s s'
  unfolding keep_receipt
  keep_receipt-SameHistory none m s s' h =
      let (n, fits, last) =
        bind-returned (json_bytes (codec.encoding m) max_response_bytes "mutation_response_bytes")
          (λ _. returned s) s' h in
      subst (SameHistory db s) (returned_inj last) (SameHistory-refl db s)
  keep_receipt-SameHistory (some (op, digest)) m s s' h =
      let (n, fits, h1) =
        bind-returned (json_bytes (codec.encoding m) max_response_bytes "mutation_response_bytes")
          (λ n.
            check_receipt db store env v codec op n s
            >> store.create_receipt (new_receipt db store env v codec op digest m) s)
          s' h in
      let (room, made) =
        then-returned (check_receipt db store env v codec op n s)
          (store.create_receipt (new_receipt db store env v codec op digest m) s) s' h1 in
      apart.receipt (new_receipt db store env v codec op digest m) s s' made

  body-IsNumbered :
      (req : Request) (key : Option (String × String)) (s : db.State)
      (r : MutationSummary × db.State)
      → body db store env v codec req key s ≡ returned r
      → Kept db store env v codec laws apart parses id s r.1
  unfolding body compose
  body-IsNumbered req key s r h numbered =
      let (c, composed, h1) =
        bind-returned (compose db store env v codec req s)
          (λ c. keep_receipt db store env v codec key c.0 c.1 >>= (λ t. returned (c.0, t))) r h in
      let (t, kept, last) =
        bind-returned (keep_receipt db store env v codec key c.0 c.1) (λ t. returned (c.0, t)) r
          h1 in
      let (plan, planned, h2) =
        bind-returned (prepare db store env v codec req s)
          (λ plan.
            write_nodes db store env v codec plan.nodes req.operation_id s
            >>= write_edges db store env v codec plan req.operation_id)
          c composed in
      let (w, written, h3) =
        bind-returned (write_nodes db store env v codec plan.nodes req.operation_id s)
          (write_edges db store env v codec plan req.operation_id) c h2 in
      subst (IsNumbered db env id) (pair-eq (c.0, t) r (returned_inj last)).1 (
        IsNumbered-kept db env id w.3 t
          (SameHistory-trans db w.3 c.1 t (write_edges-SameHistory plan req.operation_id w c h3)
            (keep_receipt-SameHistory key c.0 c.1 t kept))
          (write_nodes-IsNumbered db store env v codec laws apart parses id plan.nodes
            req.operation_id s w written numbered))

  commit-IsNumbered :
      (req : Request) (key : Option (String × String)) (s : db.State) {m : MutationSummary}
      {t u : db.State}
      → body db store env v codec req key s ≡ returned (m, t)
      → (u ≡ t) ⊎ (u ≡ s)
      → Kept db store env v codec laws apart parses id s u
  commit-IsNumbered req key s {m} {t} b (inl e) numbered =
      rw e (body-IsNumbered req key s (m, t) b numbered)
  commit-IsNumbered req key s b (inr e) numbered = rw e numbered

  ending-IsNumbered :
      (req : Request) (s : db.State) (o : Result MutationSummary × db.State)
      → Ending db store env v codec req s o
      → Kept db store env v codec laws apart parses id s o.1
  ending-IsNumbered req s o (replays m e) numbered = numbered
  ending-IsNumbered req s o (rolls_back e) numbered = numbered
  ending-IsNumbered req s o (commits key b c checked) numbered =
      commit-IsNumbered req key s b (apart.commit s _ o.1 _ c) numbered
  ending-IsNumbered req s o (commit_raises key b c) numbered =
      commit-IsNumbered req key s b (apart.commit s _ o.1 _ c) numbered

  -- Let the revisions of an id be numbered without a gap, from the number of the node with this id
  -- down to 1 or 0; or let the id have no revisions, and no node or one without a number. Then one of
  -- the two is so in the database that `apply_mutation` leaves, however the call ends and whatever it
  -- changes. The conditions: the history and the nodes are changed by their own statements only,
  -- entries of the history are read as they were written, and a commit that raises has kept all of
  -- the transaction or nothing. The theorem says nothing of an id that has revisions but no node, as
  -- where a node was deleted and its rows were kept.
  pub apply_mutation-IsNumbered :
      (req : Request) (s : db.State)
      → IsNumbered db env id s
      → IsNumbered db env id (apply_mutation db store env v codec req s).1
  apply_mutation-IsNumbered req s numbered =
      ending-IsNumbered req s (apply_mutation db store env v codec req s)
        (apply_mutation-Ending db store env v codec req s) numbered
