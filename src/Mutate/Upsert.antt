-- ===== src/Mutate/Upsert.antt =====
-- `_upsert_nodes` leaves the history of every node alone.
use grag.Base.{
  String, List, [], ◌∷◌, ◌++◌, Option, none, some, Bool, true, false, not, str_eq, ◌≡◌, refl, ◌∙◌,
  arith, eq_iff, pair-eq, Bool-cases, Option-cases, inl, inr,
}
use grag.Base.Dict.{Dict, lookup, has, contains, lookup-update-none, lookup-append_none}
use grag.Base.Values.{Value, Props, str, other, get}
use grag.Base.Result.{returned, ◌>>=◌, bind-returned, returned_inj, raised-ne-returned}
use grag.Graph.{vector_props}
use grag.History.{Database, UpsertNode, identity, merge_node, property}
use grag.History.Laws.{IsDatabase}
use grag.History.Steps.{number, SameHistory, SameHistory-refl, SameHistory-trans}
use grag.Mutate.{
  Conversions, Accepted, Warning, Verdict, skipped, taken, is_internal, judge, apply,
  sanitize_props, vectors_in, set_if, source_set, cleared, embeds_other, create_sets, match_sets,
  merge, upsert_with, upsert_node, add_warnings, upsert_each, all_known, upsert_nodes,
}
use mathlib.Core.Path.{subst}

-- A verdict takes no value of a reserved name.
abbrev Public : String → Verdict → Type 0
Public name (skipped w) = Unit
Public name (taken c) = is_internal name ≡ false

Public-of : (name : String) (d : Verdict) → is_internal name ≡ false → Public name d
Public-of name (skipped w) h = tt
Public-of name (taken c) h = h

judge-Public :
    (v : Conversions) (owner : String) (columns : Dict String) (name : String) (value : Value)
    (d : Verdict)
    → judge v owner columns name value ≡ returned d
    → Public name d
unfolding judge
judge-Public v owner columns name value d h = elim (Bool-cases (is_internal name)) [
  | inl e ↦ rw (← returned_inj (rw e at h)) tt
  | inr e ↦ Public-of name d e
]

apply-lookup :
    (k name : String) (d : Verdict) (a : Accepted)
    → is_internal k ≡ true
    → Public name d
    → lookup k a.values ≡ none
    → lookup k (apply name d a).values ≡ none
unfolding lookup
apply-lookup k name (skipped w) a i p h = h
apply-lookup k name (taken c) a i p h = elim (Bool-cases (str_eq name k)) [
  | inl e ↦ let same : name ≡ k = (eq_iff name k).0 e in absurd (ground (arith, i, rw same at p))
  | inr e ↦ rw e h
]

sanitize_props-lookup :
    (v : Conversions) (owner k : String) (columns : Dict String) (props : Props) (a : Accepted)
    → is_internal k ≡ true
    → sanitize_props v owner columns props ≡ returned a
    → lookup k a.values ≡ none
unfolding sanitize_props lookup
sanitize_props-lookup v owner k columns [] a i h = rw (← returned_inj h) refl
sanitize_props-lookup v owner k columns ((name, value) ∷ more) a i h =
    let (d, judged, h1) =
      bind-returned (judge v owner columns name value)
        (λ d. sanitize_props v owner columns more >>= (λ b. returned (apply name d b))) a h in
    let (b, rest, h2) =
      bind-returned (sanitize_props v owner columns more) (λ b. returned (apply name d b)) a h1 in
    rw (← returned_inj h2) (
      apply-lookup k name d b i (judge-Public v owner columns name value d judged)
        (sanitize_props-lookup v owner k columns more b i rest))

vectors_in-lookup :
    (columns : Dict String) (ks : List String) (k : String)
    → contains ks k ≡ false
    → lookup k (vectors_in columns ks) ≡ none
unfolding lookup contains
vectors_in-lookup columns [] k h = refl
vectors_in-lookup columns (j ∷ ks) k h = ground (arith, vectors_in-lookup columns ks k, h)

module _ (db : Database) (v : Conversions) where
  append-none :
      (k : String) (d e : Props) → lookup k d ≡ none → lookup k e ≡ none → lookup k (d ++ e) ≡ none
  append-none k d e h i = lookup-append_none k d e h ∙ i

  set_if-number :
      (b : Bool) (k : String) (value : Value)
      → str_eq k "_evidence_seq" ≡ false
      → lookup "_evidence_seq" (set_if db v b k value) ≡ none
  unfolding lookup
  set_if-number true k value h = rw h
  set_if-number false k value h = refl

  source_set-number :
      (o : Option String) (columns : Dict String)
      → lookup "_evidence_seq" (source_set db v o columns) ≡ none
  unfolding lookup
  source_set-number none columns = refl
  source_set-number (some t) columns = set_if-number (has "_source" columns) "_source" (str t) refl

  vectors-number :
      (columns : Dict String) → lookup "_evidence_seq" (vectors_in columns vector_props) ≡ none
  unfolding contains
  vectors-number columns = vectors_in-lookup columns vector_props "_evidence_seq" refl

  cleared-number :
      (b : Bool) (columns : Dict String) → lookup "_evidence_seq" (cleared db v b columns) ≡ none
  unfolding lookup
  cleared-number true columns = vectors-number columns
  cleared-number false columns = refl

  create_sets-number :
      (node : UpsertNode) (columns : Dict String) (values : Props) (now : String)
      → lookup "_evidence_seq" values ≡ none
      → lookup "_evidence_seq" (create_sets db v node columns values now) ≡ none
  unfolding create_sets
  create_sets-number node columns values now h = append-none "_evidence_seq" values _ h (
      append-none "_evidence_seq" (vectors_in columns vector_props) _ (vectors-number columns) (
        append-none "_evidence_seq"
          (set_if db v (has "_created_at" columns) "_created_at" (other true now)) _
          (set_if-number (has "_created_at" columns) "_created_at" (other true now) refl)
          (source_set-number node.source columns)))

  match_sets-number :
      (node : UpsertNode) (columns : Dict String) (values : Props) (there : Option Props)
      → lookup "_evidence_seq" values ≡ none
      → lookup "_evidence_seq" (match_sets db v node columns values there) ≡ none
  unfolding match_sets
  match_sets-number node columns values there h = append-none "_evidence_seq" values _ h (
      append-none "_evidence_seq" (cleared db v (embeds_other db v columns values there) columns) _
        (cleared-number (embeds_other db v columns values there) columns)
        (source_set-number node.source columns))

  module _ (laws : IsDatabase db) where
    merge_node-number :
        (id : String) (created matched : Props) (s s' : db.State)
        → lookup "_evidence_seq" created ≡ none
        → lookup "_evidence_seq" matched ≡ none
        → db.write (merge_node id created matched) s ≡ returned s'
        → property (db.node s' id) "_evidence_seq" ≡ property (db.node s id) "_evidence_seq"
    unfolding property
    merge_node-number id created matched s s' c m h = elim (Option-cases (db.node s id)) [
      | inl e ↦ laws.merge_new id created matched s s' h e (rw (has, c)) ∙ rw e
      | inr (p, e) ↦
          let (q, there, all) = laws.merge_old id created matched p s s' h e in
          rw (there, e)
            (all "_evidence_seq" ∙ rw (get, lookup-update-none "_evidence_seq" p matched m))
    ]

    merge_node-SameHistory :
        (id : String) (created matched : Props) (s s' : db.State)
        → lookup "_evidence_seq" created ≡ none
        → lookup "_evidence_seq" matched ≡ none
        → db.write (merge_node id created matched) s ≡ returned s'
        → SameHistory db s s'
    unfolding number property
    merge_node-SameHistory id created matched s s' c m h = record {
      rows = laws.merge_rows id created matched s s' h;
      numbers = λ j. elim (Bool-cases (str_eq id j)) [
        | inl e ↦ rw (← (eq_iff id j).0 e) (merge_node-number id created matched s s' c m h)
        | inr e ↦ rw (laws.merge_other id j created matched s s' h e)
      ];
      present = λ j p at. elim (Bool-cases (str_eq id j)) [
        | inl e ↦
            let same : id ≡ j = (eq_iff id j).0 e in
            let (q, there, all) = laws.merge_old id created matched p s s' h (rw same at) in
            (q, rw (← same) there)
        | inr e ↦ (p, laws.merge_other id j created matched s s' h e ∙ at)
      ];
    }

    merge-SameHistory :
        (node : UpsertNode) (a : Accepted) (s : db.State) (r : List Warning × db.State)
        → lookup "_evidence_seq" a.values ≡ none
        → merge db v node a s ≡ returned r
        → SameHistory db s r.1
    unfolding merge
    merge-SameHistory node a s r n h =
        let columns = db.columns s node.label in
        let id : String = identity node in
        let created : Props = create_sets db v node columns a.values (db.now s) in
        let matched : Props = match_sets db v node columns a.values (db.node s id) in
        let (t, made, last) =
          bind-returned (db.write (merge_node id created matched) s) (λ t. returned (a.warnings, t))
            r h in
        subst (SameHistory db s) (pair-eq (a.warnings, t) r (returned_inj last)).1 (
          merge_node-SameHistory id created matched s t
            (create_sets-number node columns a.values (db.now s) n)
            (match_sets-number node columns a.values (db.node s id) n) made)

    upsert_with-SameHistory :
        (node : UpsertNode) (o : Option String) (s : db.State) (r : List Warning × db.State)
        → upsert_with db v node s o ≡ returned r
        → SameHistory db s r.1
    unfolding upsert_with
    upsert_with-SameHistory node none s r h = absurd (raised-ne-returned h)
    upsert_with-SameHistory node (some pk) s r h =
        let (a, accepted, merged) =
          bind-returned (sanitize_props v (identity node) (db.columns s node.label) node.properties)
            (λ a. merge db v node a s) r h in
        merge-SameHistory node a s r
          (sanitize_props-lookup v (identity node) "_evidence_seq" (db.columns s node.label)
            node.properties a refl accepted)
          merged

    upsert_each-SameHistory :
        (nodes : List UpsertNode) (s : db.State) (r : List Warning × db.State)
        → upsert_each db v nodes s ≡ returned r
        → SameHistory db s r.1
    unfolding upsert_each upsert_node
    upsert_each-SameHistory [] s r h =
        subst (SameHistory db s) (pair-eq ([], s) r (returned_inj h)).1 (SameHistory-refl db s)
    upsert_each-SameHistory (node ∷ nodes) s r h =
        let (q, one, h1) =
          bind-returned (upsert_node db v node s)
            (λ q. upsert_each db v nodes q.1 >>= add_warnings db v q.0) r h in
        let (p, rest, last) =
          bind-returned (upsert_each db v nodes q.1) (add_warnings db v q.0) r h1 in
        subst (SameHistory db s) (pair-eq (q.0 ++ p.0, p.1) r (returned_inj last)).1 (
          SameHistory-trans db s q.1 p.1
            (upsert_with-SameHistory node (db.primary_key s node.label) s q one)
            (upsert_each-SameHistory nodes q.1 p rest))

    -- Where `_upsert_nodes` returns, every row of the history and the number of every node are as
    -- before, and a node that was there still is.
    pub upsert_nodes-SameHistory :
        (nodes : List UpsertNode) (s : db.State) (r : List Warning × db.State)
        → upsert_nodes db v nodes s ≡ returned r
        → SameHistory db s r.1
    unfolding upsert_nodes
    upsert_nodes-SameHistory nodes s r h = elim (Bool-cases (not (all_known db v nodes s))) [
      | inl e ↦ absurd (raised-ne-returned (rw e at h))
      | inr e ↦ upsert_each-SameHistory nodes s r (rw e at h)
    ]
