-- ===== src/Mutations/Rounds.antt =====
-- A batch of nodes leaves the numbers of every node's revisions without a gap.
use grag.Base.{String, List, [], ◌∷◌, Option, Bool, ◌||◌, ◌≡◌, inl, inr, Bool-cases}
use grag.Base.Result.{returned, ◌>>=◌, bind-returned, returned_inj}
use grag.History.{Database, Env, UpsertNode, Prepared, Changed}
use grag.History.Update.{has_evidence, after_update}
use grag.History.Laws.{IsDatabase, notes, numbers, Counts}
use grag.History.Steps.{number, SameHistory, SameHistory-refl, SameHistory-trans}
use grag.History.Prior.{
  Prior, Engaged, Prior-kept, Engaged-kept, before_update-Prior, after_update-Engaged,
}
use grag.Mutations.Batch.{engage, prepare_each, after_each}
use mathlib.Core.Path.{subst}

-- The revisions of an id: either they are numbered without a gap, and the last number is the number
-- of the node with this id, or there are none, and there is no node or it has no number. So there are
-- no rows of a node that is not there.
abbrev pub IsNumbered : (db : Database) → Env → String → db.State → Type 0
IsNumbered db env id s = Counts (numbers (notes env.parse_entry id (db.rows s))) (number db s id)

pub IsNumbered-kept :
    (db : Database) (env : Env) (id : String) (s s' : db.State)
    → SameHistory db s s'
    → IsNumbered db env id s
    → IsNumbered db env id s'
IsNumbered-kept db env id s s' same h = rw (same.rows, same.numbers id) h

abbrev pub PriorAll : (db : Database) → db.State → List (UpsertNode × Option Prepared) → Type 0
PriorAll db s [] = Unit
PriorAll db s ((node, o) ∷ more) = Prior db s node o × PriorAll db s more

abbrev pub EngagedAll : (db : Database) → db.State → List (UpsertNode × Option Changed) → Type 0
EngagedAll db s [] = Unit
EngagedAll db s ((node, o) ∷ more) = Engaged db s node o × EngagedAll db s more

pub PriorAll-kept :
    (db : Database) (s s' : db.State) (items : List (UpsertNode × Option Prepared))
    → SameHistory db s s'
    → PriorAll db s items
    → PriorAll db s' items
PriorAll-kept db s s' [] same h = tt
PriorAll-kept db s s' ((node, o) ∷ more) same (a, h) =
    (Prior-kept db s s' node o same a, PriorAll-kept db s s' more same h)

module _ (db : Database) (laws : IsDatabase db) where
  engage-Prior :
      (tracked : String → Bool) (node : UpsertNode) (s : db.State) (r : Option Prepared × db.State)
      → engage db tracked node s ≡ returned r
      → SameHistory db s r.1 × Prior db r.1 node r.0
  engage-Prior tracked node s r h = elim (Bool-cases (has_evidence db node || tracked node.label)) [
    | inl e ↦ before_update-Prior db laws node s r (rw e at h)
    | inr e ↦
        subst (λ q. SameHistory db s q.1 × Prior db q.1 node q.0) (returned_inj (rw e at h))
          (SameHistory-refl db s, tt)
  ]

  pub prepare_each-PriorAll :
      (tracked : String → Bool) (nodes : List UpsertNode) (s : db.State)
      (r : List (UpsertNode × Option Prepared) × db.State)
      → prepare_each db tracked nodes s ≡ returned r
      → SameHistory db s r.1 × PriorAll db r.1 r.0
  unfolding prepare_each
  prepare_each-PriorAll tracked [] s r h =
      subst (λ q. SameHistory db s q.1 × PriorAll db q.1 q.0) (returned_inj h)
        (SameHistory-refl db s, tt)
  prepare_each-PriorAll tracked (node ∷ nodes) s r h =
      let (q, one, h1) =
        bind-returned (engage db tracked node s)
          (λ q. prepare_each db tracked nodes q.1 >>= (λ p. returned ((node, q.0) ∷ p.0, p.1))) r
          h in
      let (p, rest, last) =
        bind-returned (prepare_each db tracked nodes q.1) (λ p. returned ((node, q.0) ∷ p.0, p.1)) r
          h1 in
      let (same, prior) = engage-Prior tracked node s q one in
      let (more, all) = prepare_each-PriorAll tracked nodes q.1 p rest in
      subst (λ x. SameHistory db s x.1 × PriorAll db x.1 x.0) (returned_inj last)
        (SameHistory-trans db s q.1 p.1 same more, (Prior-kept db q.1 p.1 node q.0 more prior, all))

  module _ (env : Env) where
    pub after_each-EngagedAll :
        (items : List (UpsertNode × Option Prepared)) (s : db.State)
        (r : List (UpsertNode × Option Changed) × db.State)
        → PriorAll db s items
        → after_each db env items s ≡ returned r
        → SameHistory db s r.1 × EngagedAll db r.1 r.0
    unfolding after_each
    after_each-EngagedAll [] s r k h =
        subst (λ q. SameHistory db s q.1 × EngagedAll db q.1 q.0) (returned_inj h)
          (SameHistory-refl db s, tt)
    after_each-EngagedAll ((node, o) ∷ more) s r (k, ks) h =
        let (q, one, h1) =
          bind-returned (after_update db env node o s)
            (λ q. after_each db env more q.1 >>= (λ p. returned ((node, q.0) ∷ p.0, p.1))) r h in
        let (p, rest, last) =
          bind-returned (after_each db env more q.1) (λ p. returned ((node, q.0) ∷ p.0, p.1)) r
            h1 in
        let (same, engaged) = after_update-Engaged db laws env node o s q k one in
        let (others, all) =
          after_each-EngagedAll more q.1 p (PriorAll-kept db s q.1 more same ks) rest in
        subst (λ x. SameHistory db s x.1 × EngagedAll db x.1 x.0) (returned_inj last)
          (
            SameHistory-trans db s q.1 p.1 same others,
            (Engaged-kept db q.1 p.1 node q.0 others engaged, all),
          )
