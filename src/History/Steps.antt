-- ===== src/History/Steps.antt =====
-- What `before_update` finds of a node is what the later calls rely on: until `finish_update` no
-- call changes a row of the history or the number of a node.
use grag.Base.{
  String, List, [], ◌∷◌, Option, none, some, Bool, true, false, not, ◌&&◌, str_eq, ◌≡◌, refl, ◌∙◌,
  eq_iff, Bool-cases, if_inv, inl, inr,
}
use grag.Base.Dict.{Dict, lookup, insert, contains, keys, lookup-insert, lookup-update-none}
use grag.Base.Values.{Value, Props, get}
use grag.Base.Result.{returned, bind-returned, returned_inj}
use grag.History.{
  Database, Env, EvidenceUpdate, UpsertNode, Prepared, add_column, set_properties, history_columns,
  property, adopt, patch, set_field, anchor, assignments, claim_changed, same_anchor, option_value,
}
use grag.History.Update.{add_columns, ensure_table, ensure}
use grag.History.Laws.{IsDatabase}
use mathlib.Core.Path.{subst}

-- The number of a node's last revision
unfoldable pub number : (db : Database) → db.State → String → Value
number db s id = property (db.node s id) "_evidence_seq"

pub record SameHistory (db : Database) (s s' : db.State) : Type 0 where
  pub rows : db.rows s' ≡ db.rows s
  pub numbers : (id : String) → number db s' id ≡ number db s id
  pub present :
      (id : String) (p : Props) → db.node s id ≡ some p → (q : Props) × (db.node s' id ≡ some q)

pub SameHistory-refl : (db : Database) (s : db.State) → SameHistory db s s
SameHistory-refl db s = record { rows = refl; numbers = λ id. refl; present = λ id p e. (p, e) }

pub SameHistory-trans :
    (db : Database) (s t u : db.State)
    → SameHistory db s t
    → SameHistory db t u
    → SameHistory db s u
SameHistory-trans db s t u a b = record {
  rows = b.rows ∙ a.rows;
  numbers = λ id. b.numbers id ∙ a.numbers id;
  present = λ id p e. let (q, f) = a.present id p e in b.present id q f;
}

pub SameHistory-of_nodes :
    (db : Database) (s s' : db.State)
    → db.rows s' ≡ db.rows s
    → ((id : String) → db.node s' id ≡ db.node s id)
    → SameHistory db s s'
unfolding number
SameHistory-of_nodes db s s' rows nodes = record {
  rows = rows;
  numbers = λ id. rw (nodes id);
  present = λ id p e. (p, nodes id ∙ e);
}

-- No assignment of `after_update` is one of the number.
set_field-number :
    (name : String) (o : Option Value) (d : Props)
    → str_eq name "_evidence_seq" ≡ false
    → lookup "_evidence_seq" (set_field name o d) ≡ lookup "_evidence_seq" d
set_field-number name none d e = refl
set_field-number name (some v) d e = rw (lookup-insert name "_evidence_seq" v d, e)

patch-number :
    (u : Option EvidenceUpdate) (d : Props)
    → lookup "_evidence_seq" (patch u d) ≡ lookup "_evidence_seq" d
unfolding patch
patch-number none d = refl
patch-number (some u) d =
    set_field-number "_superseded_by" u.superseded_by _ refl
    ∙ set_field-number "_expires_at" u.expires_at _ refl
    ∙ set_field-number "_review_state" u.review _ refl
    ∙ set_field-number "_evidence_state" u.state d refl

adopt-number :
    (env : Env) (tracked : Bool) (current : Props)
    → lookup "_evidence_seq" (adopt env.texts tracked current) ≡ none
unfolding adopt lookup
adopt-number env true current = refl
adopt-number env false current = refl

anchor-number :
    (env : Env) (previous : Option Props) (current d : Props)
    → lookup "_evidence_seq" (anchor env previous current d) ≡ lookup "_evidence_seq" d
unfolding anchor
anchor-number env previous current d =
    if_inv (λ x. lookup "_evidence_seq" x ≡ lookup "_evidence_seq" d)
      (claim_changed env previous current
        && not (same_anchor (env.anchors (get current "_source")) (get current "_source_files")))
      (insert "_source_files" (option_value (env.anchors (get current "_source"))) d) d
      (λ _. rw (
        lookup-insert "_source_files" "_evidence_seq"
          (option_value (env.anchors (get current "_source"))) d))
      (λ _. refl)

pub assignments-number :
    (env : Env) (node : UpsertNode) (p : Prepared) (current : Props)
    → lookup "_evidence_seq" (assignments env node p current) ≡ none
unfolding assignments
assignments-number env node p current =
    anchor-number env p.previous current _
    ∙ patch-number node.evidence _
    ∙ adopt-number env p.tracked current

module _ (db : Database) (laws : IsDatabase db) where
  pub set-SameHistory :
      (id : String) (d p : Props) (s s' : db.State)
      → lookup "_evidence_seq" d ≡ none
      → db.node s id ≡ some p
      → db.write (set_properties id d) s ≡ returned s'
      → SameHistory db s s'
  unfolding number property
  set-SameHistory id d p s s' new at h =
      let (q, there, all) = laws.set_node id d p s s' h at in
      record {
        rows = laws.set_rows id d s s' h;
        numbers = λ j. elim (Bool-cases (str_eq id j)) [
          | inl e ↦
              let same : id ≡ j = (eq_iff id j).0 e in
              rw (← same, there, at)
                (all "_evidence_seq" ∙ rw (get, lookup-update-none "_evidence_seq" p d new))
          | inr e ↦ rw (laws.set_other id j d s s' h e)
        ];
        present = λ j r f. elim (Bool-cases (str_eq id j)) [
          | inl e ↦ let same : id ≡ j = (eq_iff id j).0 e in (q, rw (← same) there)
          | inr e ↦ (r, laws.set_other id j d s s' h e ∙ f)
        ];
      }

  add_columns-SameHistory :
      (label : String) (there : List String) (cs : Dict String) (s s' : db.State)
      → add_columns db label there cs s ≡ returned s'
      → SameHistory db s s'
  unfolding add_columns
  add_columns-SameHistory label there [] s s' h =
      subst (SameHistory db s) (returned_inj h) (SameHistory-refl db s)
  add_columns-SameHistory label there ((name, kind) ∷ more) s s' h =
      elim (Bool-cases (contains there name)) [
        | inl e ↦ add_columns-SameHistory label there more s s' (rw e at h)
        | inr e ↦
            let (t, made, rest) =
              bind-returned (db.write (add_column label name kind) s)
                (add_columns db label there more) s' (rw e at h) in
            SameHistory-trans db s t s'
              (SameHistory-of_nodes db s t (laws.add_column_rows label name kind s t made)
                (λ id. laws.add_column_node label name kind s t id made))
              (add_columns-SameHistory label there more t s' rest)
      ]

  pub ensure-SameHistory :
      (label : String) (s s' : db.State) → ensure db label s ≡ returned s' → SameHistory db s s'
  unfolding ensure ensure_table
  ensure-SameHistory label s s' h =
      let (t, made, rest) =
        bind-returned (add_columns db label (keys (db.columns s label)) history_columns s)
          (ensure_table db) s' h in
      SameHistory-trans db s t s' (add_columns-SameHistory label _ history_columns s t made)
        (elim (Bool-cases (db.has_history t)) [
          | inl e ↦ subst (SameHistory db t) (returned_inj (rw e at rest)) (SameHistory-refl db t)
          | inr e ↦
              SameHistory-of_nodes db t s' (laws.create_history_rows t s' (rw e at rest))
                (λ id. laws.create_history_node t s' id (rw e at rest))
        ])
