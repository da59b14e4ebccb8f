-- ===== src/History/Prior.antt =====
-- What is known of a node between `before_update`, `after_update` and `finish_update`.
use grag.Base.{
  is_empty, Option, none, some, not, ◌&&◌, ◌≡◌, refl, sym, ◌∙◌, Bool-cases, pair-eq, inl, inr,
}
use grag.Base.Values.{Props, is_null}
use grag.Base.Result.{returned, bind-returned, returned_inj, raised-ne-returned}
use grag.History.{
  Database, Env, UpsertNode, identity, Prepared, Changed, set_properties, property, assignments,
}
use grag.History.Update.{
  ensure, is_tracked, has_evidence, lacks_revision, before_update, change, assign, after_found,
  after_update,
}
use grag.History.Laws.{IsDatabase}
use grag.History.Steps.{
  number, SameHistory, SameHistory-refl, assignments-number, set-SameHistory, ensure-SameHistory,
}
use mathlib.Core.Path.{subst}

-- What `before_update` has prepared is still so: the node has the number that it found.
abbrev pub Prior : (db : Database) → db.State → UpsertNode → Option Prepared → Type 0
Prior db s node none = Unit
Prior db s node (some p) =
    (property p.previous "_evidence_seq" ≡ number db s (identity node))
    × (p.tracked ≡ not (is_null (property p.previous "_evidence_seq")))

-- The node is there, with that number.
abbrev pub Engaged : (db : Database) → db.State → UpsertNode → Option Changed → Type 0
Engaged db s node none = Unit
Engaged db s node (some c) =
    ((q : Props) × (db.node s (identity node) ≡ some q))
    × (property c.previous "_evidence_seq" ≡ number db s (identity node))
    × (c.tracked ≡ not (is_null (property c.previous "_evidence_seq")))

pub Prior-kept :
    (db : Database) (s s' : db.State) (node : UpsertNode) (o : Option Prepared)
    → SameHistory db s s'
    → Prior db s node o
    → Prior db s' node o
Prior-kept db s s' node none same h = tt
Prior-kept db s s' node (some p) same (n, t) = (n ∙ sym (same.numbers (identity node)), t)

pub Engaged-kept :
    (db : Database) (s s' : db.State) (node : UpsertNode) (o : Option Changed)
    → SameHistory db s s'
    → Engaged db s node o
    → Engaged db s' node o
Engaged-kept db s s' node none same h = tt
Engaged-kept db s s' node (some c) same ((q, at), n, t) =
    (same.present (identity node) q at, n ∙ sym (same.numbers (identity node)), t)

module _ (db : Database) (laws : IsDatabase db) where
  abbrev After : db.State → UpsertNode → Option Prepared × db.State → Type 0
  After s node r = SameHistory db s r.1 × Prior db r.1 node r.0

  pub before_update-Prior :
      (node : UpsertNode) (s : db.State) (r : Option Prepared × db.State)
      → before_update db node s ≡ returned r
      → SameHistory db s r.1 × Prior db r.1 node r.0
  unfolding before_update property number
  before_update-Prior node s r h =
      let previous = db.node s (identity node) in
      elim (Bool-cases (not (has_evidence db node) && not (is_tracked db previous))) [
        | inl e ↦ subst (After s node) (returned_inj (rw e at h)) (SameHistory-refl db s, tt)
        | inr e ↦ elim (Bool-cases (lacks_revision db node previous)) [
          | inl f ↦ absurd (raised-ne-returned (rw (e, f) at h))
          | inr f ↦
              let p : Prepared = record { previous = previous; tracked = is_tracked db previous } in
              let (t, made, last) =
                bind-returned (ensure db node.label s) (λ t. returned (some p, t)) r
                  (rw (e, f) at h) in
              let same = ensure-SameHistory db laws node.label s t made in
              subst (After s node) (returned_inj last)
                (same, (sym (same.numbers (identity node)), refl))
        ]
      ]

  module _ (env : Env) where
    abbrev Changing : db.State → UpsertNode → Option Changed × db.State → Type 0
    Changing s node r = SameHistory db s r.1 × Engaged db r.1 node r.0

    assign-SameHistory :
        (node : UpsertNode) (p : Prepared) (current : Props) (s : db.State) (r : Changed × db.State)
        → db.node s (identity node) ≡ some current
        → assign db env node p current s ≡ returned r
        → (r.0 ≡ change db env p current (assignments env node p current)) × SameHistory db s r.1
    unfolding assign
    assign-SameHistory node p current s r at h =
        let d = assignments env node p current in
        let c : Changed = change db env p current d in
        elim (Bool-cases (is_empty d)) [
          | inl e ↦
              let (same, state) = pair-eq (c, s) r (returned_inj (rw e at h)) in
              (sym same, subst (SameHistory db s) state (SameHistory-refl db s))
          | inr e ↦
              let (t, made, last) =
                bind-returned (db.write (set_properties (identity node) d) s) (λ t. returned (c, t))
                  r (rw e at h) in
              let (same, state) = pair-eq (c, t) r (returned_inj last) in
              (
                sym same,
                subst (SameHistory db s) state (
                    set-SameHistory db laws (identity node) d current s t
                      (assignments-number env node p current) at made),
              )
        ]

    found-Engaged :
        (node : UpsertNode) (p : Prepared) (s : db.State) (r : Option Changed × db.State)
        (o : Option Props)
        → db.node s (identity node) ≡ o
        → Prior db s node (some p)
        → after_found db env node p s o ≡ returned r
        → SameHistory db s r.1 × Engaged db r.1 node r.0
    unfolding after_found
    found-Engaged node p s r none at (n, t) h = absurd (raised-ne-returned h)
    found-Engaged node p s r (some current) at (n, t) h =
        let (q, made, last) =
          bind-returned (assign db env node p current s) (λ q. returned (some q.0, q.1)) r h in
        let (c, same) = assign-SameHistory node p current s q at made in
        subst (Changing s node) (returned_inj last) (
          same,
          (
            same.present (identity node) current at,
            rw c (n ∙ sym (same.numbers (identity node))),
            rw c t,
          ),
        )

    pub after_update-Engaged :
        (node : UpsertNode) (o : Option Prepared) (s : db.State) (r : Option Changed × db.State)
        → Prior db s node o
        → after_update db env node o s ≡ returned r
        → SameHistory db s r.1 × Engaged db r.1 node r.0
    unfolding after_update
    after_update-Engaged node none s r k h =
        subst (Changing s node) (returned_inj h) (SameHistory-refl db s, tt)
    after_update-Engaged node (some p) s r k h =
        found-Engaged node p s r (db.node s (identity node)) refl k h
