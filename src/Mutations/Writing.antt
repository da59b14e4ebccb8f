-- ===== src/Mutations/Writing.antt =====
-- The nodes that `apply_mutation` writes keep the numbers of the revisions without a gap.
use grag.Base.{
  ℕ, String, List, [], ◌∷◌, is_empty, Option, none, not, ◌&&◌, ◌≡◌, ap, ◌∙◌, ◌⊎◌, inl, inr,
  Bool-cases,
}
use grag.Base.Dict.{Dict}
use grag.Base.Result.{
  Result, returned, ◌>>=◌, bind-returned, then-returned, returned_inj, raised-ne-returned,
}
use grag.History.{Database, Env, Entry, UpsertNode, Prepared, Changed}
use grag.History.Laws.{IsDatabase}
use grag.History.Steps.{SameHistory, SameHistory-refl, SameHistory-trans}
use grag.Mutate.{Conversions, Warning}
use grag.Mutate.Edges.{upsert_edges-SameHistory}
use grag.Mutate.Upsert.{upsert_nodes-SameHistory}
use grag.Mutations.{
  Plan, Receipt, Store, Codec, distinct, identities, any_engaged, check_identities,
}
use grag.Mutations.Batch.{prepare_each, after_each, finish_each}
use grag.Mutations.Apply.{
  make_table, has_operation, upsert_some, edges_some, tracked_at, recorded_items, record_items,
  settle_items, write_items, write_prepared, write_nodes,
}
use grag.Mutations.Rounds.{
  IsNumbered, IsNumbered-kept, PriorAll, PriorAll-kept, prepare_each-PriorAll,
  after_each-EngagedAll,
}
use grag.Mutations.Finishing.{after_each-shape, finish_each-idle, finish_each-IsNumbered}
use mathlib.Core.Path.{subst}

-- Operations are apart from nodes and their history, and a commit leaves the database with
-- all that the transaction has written, or with nothing of it.
pub record IsApart {db : Database} (store : Store db) : Type 0 where
  pub operations : (s s' : db.State) → store.create_operations s ≡ returned s' → SameHistory db s s'
  pub receipt :
      (r : Receipt) (s s' : db.State) → store.create_receipt r s ≡ returned s' → SameHistory db s s'
  pub commit :
      (s t u : db.State) (r : Result (Unit {0})) → store.commit s t ≡ (r, u) → (u ≡ t) ⊎ (u ≡ s)

module _ (db : Database) (store : Store db) (env : Env) (v : Conversions) (codec : Codec)
    (laws : IsDatabase db) (apart : IsApart store)
    (parses : (e : Entry) → env.parse_entry (env.entry_json e) ≡ e) (id : String) where
  make_table-SameHistory :
      (op : Option String) (s s' : db.State)
      → make_table db store env v codec op s ≡ returned s'
      → SameHistory db s s'
  unfolding make_table
  make_table-SameHistory op s s' h =
      elim (Bool-cases (has_operation db store env v codec op && not (store.has_operations s))) [
        | inl e ↦ apart.operations s s' (rw e at h)
        | inr e ↦ subst (SameHistory db s) (returned_inj (rw e at h)) (SameHistory-refl db s)
      ]

  upsert_some-SameHistory :
      (nodes : List UpsertNode) (s : db.State) (r : List Warning × db.State)
      → upsert_some db store env v codec nodes s ≡ returned r
      → SameHistory db s r.1
  upsert_some-SameHistory [] s r h =
      subst (λ (x : List Warning × db.State). SameHistory db s x.1) (returned_inj h)
        (SameHistory-refl db s)
  upsert_some-SameHistory (node ∷ nodes) s r h =
      upsert_nodes-SameHistory db v laws (node ∷ nodes) s r h

  pub edges_some-SameHistory :
      (plan : Plan) (s : db.State) (r : List Warning × db.State)
      → edges_some db store env v codec plan s ≡ returned r
      → SameHistory db s r.1
  edges_some-SameHistory plan s r h = elim (Bool-cases (is_empty plan.edges)) [
    | inl e ↦
        subst (λ (x : List Warning × db.State). SameHistory db s x.1) (returned_inj (rw e at h))
          (SameHistory-refl db s)
    | inr e ↦ upsert_edges-SameHistory db v laws plan.edges (none, none) s r (rw e at h)
  ]

  finish-items :
      (items : List (UpsertNode × Option Prepared)) (s : db.State)
      (a : List (UpsertNode × Option Changed) × db.State) (f : ℕ × db.State)
      → check_identities items ≡ returned tt
      → PriorAll db s items
      → IsNumbered db env id s
      → after_each db env items s ≡ returned a
      → finish_each db env a.0 0 a.1 ≡ returned f
      → IsNumbered db env id f.1
  unfolding check_identities
  finish-items items s a f c k h after finished =
      let (names, engaged) = after_each-shape db env items s a after in
      let (same, all) = after_each-EngagedAll db laws env items s a k after in
      let numbered = IsNumbered-kept db env id s a.1 same h in
      elim (Bool-cases (any_engaged items)) [
        | inl e ↦ elim (Bool-cases (distinct (identities items))) [
          | inl d ↦
              finish_each-IsNumbered db env laws parses id a.0 0 a.1 f (rw names d) all numbered
                finished
          | inr d ↦ absurd (raised-ne-returned (rw (e, d) at c))
        ]
        | inr e ↦ rw (finish_each-idle db env a.0 0 a.1 f (engaged ∙ e) finished) numbered
      ]

  abbrev pub Kept : db.State → db.State → Type 0
  Kept s t = IsNumbered db env id s → IsNumbered db env id t

  record_items-IsNumbered :
      (p : List (UpsertNode × Option Prepared) × db.State) (ws : List Warning)
      (a : List (UpsertNode × Option Changed) × db.State)
      (w : List Warning × List Warning × Dict String × db.State)
      → record_items db store env v codec p ws a ≡ returned w
      → (f : ℕ × db.State) × (finish_each db env a.0 0 a.1 ≡ returned f) × (f.1 ≡ w.3)
  unfolding record_items
  record_items-IsNumbered p ws a w h =
      let (f, done, last) =
        bind-returned (finish_each db env a.0 0 a.1) (recorded_items db store env v codec p ws a) w
          h in
      (
        f,
        done,
        ap (λ (x : List Warning × List Warning × Dict String × db.State). x.3) (returned_inj last),
      )

  write_items-IsNumbered :
      (nodes : List UpsertNode) (p : List (UpsertNode × Option Prepared) × db.State) (s : db.State)
      (w : List Warning × List Warning × Dict String × db.State)
      → check_identities p.0 ≡ returned tt
      → PriorAll db s p.0
      → write_items db store env v codec nodes p s ≡ returned w
      → Kept s w.3
  unfolding write_items settle_items
  write_items-IsNumbered nodes p s w c k h numbered =
      let (u, upserted, h1) =
        bind-returned (upsert_some db store env v codec nodes s)
          (settle_items db store env v codec p) w h in
      let (a, after, h2) =
        bind-returned (after_each db env p.0 u.1) (record_items db store env v codec p u.0) w h1 in
      let (f, finished, same) = record_items-IsNumbered p u.0 a w h2 in
      let kept = upsert_some-SameHistory nodes s u upserted in
      subst (IsNumbered db env id) same (
        finish-items p.0 u.1 a f c (PriorAll-kept db s u.1 p.0 kept k)
          (IsNumbered-kept db env id s u.1 kept numbered) after finished)

  pub write_nodes-IsNumbered :
      (nodes : List UpsertNode) (op : Option String) (s : db.State)
      (w : List Warning × List Warning × Dict String × db.State)
      → write_nodes db store env v codec nodes op s ≡ returned w
      → Kept s w.3
  unfolding write_nodes write_prepared
  write_nodes-IsNumbered nodes op s w h numbered =
      let (p, prepared, h1) =
        bind-returned (prepare_each db (tracked_at db store env v codec s) nodes s)
          (write_prepared db store env v codec nodes op) w h in
      let (c, h2) =
        then-returned (check_identities p.0)
          (make_table db store env v codec op p.1 >>= write_items db store env v codec nodes p) w
          h1 in
      let (t, made, h3) =
        bind-returned (make_table db store env v codec op p.1)
          (write_items db store env v codec nodes p) w h2 in
      let (same, prior) =
        prepare_each-PriorAll db laws (tracked_at db store env v codec s) nodes s p prepared in
      let table = make_table-SameHistory op p.1 t made in
      write_items-IsNumbered nodes p t w c (PriorAll-kept db p.1 t p.0 table prior) h3
        (IsNumbered-kept db env id s t (SameHistory-trans db s p.1 t same table) numbered)
