-- ===== src/Mutations/Finishing.antt =====
-- The last loop over a batch: each node's revision is recorded once.
use grag.Base.{
  ℕ, String, List, [], ◌∷◌, Option, none, some, true, false, not, ◌||◌, str_eq, ◌≡◌, refl, sym, ap,
  ◌∙◌, arith, eq_iff, pair-eq, Bool-cases, inl, inr, ||_false, &&_iff,
}
use grag.Base.Dict.{contains}
use grag.Base.Values.{Props, get}
use grag.Base.Result.{returned, ◌>>=◌, bind-returned, returned_inj, raised-ne-returned}
use grag.History.{Database, Env, Entry, UpsertNode, identity, Prepared, Changed, property}
use grag.History.Update.{assign, after_found, after_update, finish_update}
use grag.History.Laws.{IsDatabase, notes, recorded}
use grag.History.Numbers.{recorded-Counts}
use grag.History.Refinement.{Finished, finish_update-Finished}
use grag.History.Steps.{number}
use grag.History.Prior.{Engaged}
use grag.Mutations.{distinct, identities, is_engaged, any_engaged}
use grag.Mutations.Batch.{after_each, finish_each}
use grag.Mutations.Rounds.{IsNumbered, EngagedAll}
use mathlib.Core.Path.{subst}

module _ (db : Database) (env : Env) where
  found-is_engaged :
      (node : UpsertNode) (p : Prepared) (s : db.State) (o : Option Props)
      (r : Option Changed × db.State)
      → after_found db env node p s o ≡ returned r
      → is_engaged r.0 ≡ true
  unfolding after_found
  found-is_engaged node p s none r h = absurd (raised-ne-returned h)
  found-is_engaged node p s (some current) r h =
      let (q, made, last) =
        bind-returned (assign db env node p current s) (λ q. returned (some q.0, q.1)) r h in
      subst (λ (x : Option Changed × db.State). is_engaged x.0 ≡ true) (returned_inj last) refl

  update-is_engaged :
      (node : UpsertNode) (o : Option Prepared) (s : db.State) (r : Option Changed × db.State)
      → after_update db env node o s ≡ returned r
      → is_engaged r.0 ≡ is_engaged o
  unfolding after_update
  update-is_engaged node none s r h =
      subst (λ (x : Option Changed × db.State). is_engaged x.0 ≡ false) (returned_inj h) refl
  update-is_engaged node (some p) s r h = found-is_engaged node p s (db.node s (identity node)) r h

  -- `after_each` keeps the nodes, and whether their history is engaged.
  pub after_each-shape :
      (items : List (UpsertNode × Option Prepared)) (s : db.State)
      (r : List (UpsertNode × Option Changed) × db.State)
      → after_each db env items s ≡ returned r
      → (identities r.0 ≡ identities items) × (any_engaged r.0 ≡ any_engaged items)
  unfolding after_each
  after_each-shape [] s r h =
      subst
        (λ (x : List (UpsertNode × Option Changed) × db.State).
          (identities x.0 ≡ []) × (any_engaged x.0 ≡ false))
        (returned_inj h) (refl, refl)
  after_each-shape ((node, o) ∷ more) s r h =
      let (q, one, h1) =
        bind-returned (after_update db env node o s)
          (λ q. after_each db env more q.1 >>= (λ p. returned ((node, q.0) ∷ p.0, p.1))) r h in
      let (p, rest, last) =
        bind-returned (after_each db env more q.1) (λ p. returned ((node, q.0) ∷ p.0, p.1)) r h1 in
      let (names, engaged) = after_each-shape more q.1 p rest in
      subst
        (λ (x : List (UpsertNode × Option Changed) × db.State).
          (identities x.0 ≡ identity node ∷ identities more)
          × (any_engaged x.0 ≡ (is_engaged o || any_engaged more)))
        (returned_inj last)
        (ap (λ l. identity node ∷ l) names, rw (update-is_engaged node o s q one, engaged))

  -- Without a node whose history is engaged the loop changes nothing.
  pub finish_each-idle :
      (items : List (UpsertNode × Option Changed)) (steps : ℕ) (s : db.State) (r : ℕ × db.State)
      → any_engaged items ≡ false
      → finish_each db env items steps s ≡ returned r
      → r.1 ≡ s
  unfolding finish_each finish_update
  finish_each-idle [] steps s r e h = sym (pair-eq (steps, s) r (returned_inj h)).1
  finish_each-idle ((node, none) ∷ more) steps s r e h = finish_each-idle more steps s r e h
  finish_each-idle ((node, some c) ∷ more) steps s r e h = absurd cc

  others-EngagedAll :
      (items : List (UpsertNode × Option Changed)) (id : String) (s s' : db.State)
      → contains (identities items) id ≡ false
      → ((j : String) → str_eq id j ≡ false → db.node s' j ≡ db.node s j)
      → EngagedAll db s items
      → EngagedAll db s' items
  unfolding contains number
  others-EngagedAll [] id s s' e other h = tt
  others-EngagedAll ((node, none) ∷ more) id s s' e other (h, hs) =
      let (head, tail) = ||_false (str_eq (identity node) id) (contains (identities more) id) e in
      (tt, others-EngagedAll more id s s' tail other hs)
  others-EngagedAll ((node, some c) ∷ more) id s s' e other (((q, at), n, t), hs) =
      let (head, tail) = ||_false (str_eq (identity node) id) (contains (identities more) id) e in
      let differs : str_eq id (identity node) ≡ false =
        ground (arith, eq_iff id (identity node), eq_iff (identity node) id, head) in
      let same = other (identity node) differs in
      (((q, same ∙ at), n ∙ rw same, t), others-EngagedAll more id s s' tail other hs)

  module _ (laws : IsDatabase db) (parses : (e : Entry) → env.parse_entry (env.entry_json e) ≡ e)
      (id : String) where
    finish-IsNumbered :
        (node : UpsertNode) (c : Changed) (s s' : db.State)
        → Finished db env laws parses node c s s'
        → Engaged db s node (some c)
        → IsNumbered db env id s
        → IsNumbered db env id s'
    unfolding number property
    finish-IsNumbered node c s s' f ((q, there), n, t) h =
        elim (Bool-cases (str_eq (identity node) id)) [
          | inl e ↦
              let same : identity node ≡ id = (eq_iff (identity node) id).0 e in
              let log : notes env.parse_entry (identity node) (db.rows s')
                  ≡ recorded env.hashing c node.evidence
                      (notes env.parse_entry (identity node) (db.rows s)) =
                ground (arith, f.log (identity node), eq_iff (identity node) (identity node)) in
              let old : get q "_evidence_seq" ≡ property c.previous "_evidence_seq" =
                sym (n ∙ rw there) in
              rw (← same, log, f.own q there old)
                (recorded-Counts env.hashing c node.evidence
                  (notes env.parse_entry (identity node) (db.rows s)) t (rw n (rw same h)))
          | inr e ↦ rw (f.log id, e, f.other id e) h
        ]

    pub finish_each-IsNumbered :
        (items : List (UpsertNode × Option Changed)) (steps : ℕ) (s : db.State) (r : ℕ × db.State)
        → distinct (identities items) ≡ true
        → EngagedAll db s items
        → IsNumbered db env id s
        → finish_each db env items steps s ≡ returned r
        → IsNumbered db env id r.1
    unfolding finish_each distinct finish_update
    finish_each-IsNumbered [] steps s r d k h f =
        subst (IsNumbered db env id) (pair-eq (steps, s) r (returned_inj f)).1 h
    finish_each-IsNumbered ((node, none) ∷ more) steps s r d (k, ks) h f =
        let (new, rest) =
          (&&_iff (not (contains (identities more) (identity node))) (distinct (identities more))).0
            d in
        finish_each-IsNumbered more steps s r rest ks h f
    finish_each-IsNumbered ((node, some c) ∷ more) steps s r d (k, ks) h f =
        let (new, rest) =
          (&&_iff (not (contains (identities more) (identity node))) (distinct (identities more))).0
            d in
        let (q, one, others) =
          bind-returned (finish_update db env node (some c) steps s)
            (λ q. finish_each db env more q.0 q.1) r f in
        let done = finish_update-Finished db env laws parses node c steps q.0 s q.1 one in
        let absent : contains (identities more) (identity node) ≡ false = ground (arith, new) in
        finish_each-IsNumbered more q.0 q.1 r rest
          (others-EngagedAll more (identity node) s q.1 absent done.other ks)
          (finish-IsNumbered node c s q.1 done k h) others
