-- ===== src/Retrieval/Qualifiers/Stable.antt =====
-- The qualifiers leave the revision of a node as it is.
use grag.Base.{
  ℕ, String, str_eq, eq_iff, List, [], ◌∷◌, map, Option, some, true, false, if_inv, ◌≡◌, refl, sym,
  ◌∙◌, ap, Bool-cases, Option-cases, inl, inr, arith,
}
use grag.Base.Dict.{Dict, lookup, insert, erase, update, lookup-insert, lookup-erase, contains}
use grag.Base.Values.{Value, Props, str, other}
use grag.Graph.{NodeRecord, Subgraph}
use grag.Revisions.{Hashing, is_derived, content_revision}
use grag.Revisions.Stability.{content_revision-erase}
use grag.Evidence.{Texts, exclusion_reason}
use grag.Retrieval.Qualifiers.{
  Files, changed_sources, source_changes, with_source_changes, labelled, revise, with_revisions,
  qualify_props, qualify,
}

module _ {V : Type 0} where
  erase-insert_self : (k : String) (v : V) (d : Dict V) → erase k (insert k v d) ≡ erase k d
  unfolding erase insert
  erase-insert_self k v [] = ground (arith, eq_iff k k)
  erase-insert_self k v ((j, w) ∷ d) =
      ground (arith, eq_iff j k, eq_iff k k, erase-insert_self k v d)

  erase-insert_other :
      (k j : String) (v : V) (d : Dict V)
      → str_eq j k ≡ false
      → erase k (insert j v d) ≡ insert j v (erase k d)
  unfolding erase insert
  erase-insert_other k j v [] h = ground (arith, h)
  erase-insert_other k j v ((i, w) ∷ d) h =
      ground (arith, h, eq_iff i j, eq_iff i k, eq_iff j k, erase-insert_other k j v d h)

  -- Without a key, an update is that of the dicts without it.
  erase-update :
      (k : String) (d items : Dict V)
      → erase k (update d items) ≡ update (erase k d) (erase k items)
  unfolding update erase
  erase-update k d [] = refl
  erase-update k d ((j, w) ∷ items) =
      let i = erase-update k (insert j w d) items in
      elim (Bool-cases (str_eq j k)) [
        | inl e ↦
            rw (erase, e)
              (i ∙ ap (λ x. update x (erase k items)) (erase-insert_at ((eq_iff j k).0 e)))
        | inr e ↦
            rw (erase, e) (i ∙ ap (λ x. update x (erase k items)) (erase-insert_other k j w d e))
      ]
    where
      erase-insert_at : j ≡ k → erase k (insert j w d) ≡ erase k d
      erase-insert_at e = rw e (erase-insert_self k w d)

  erase-erase : (k : String) (d : Dict V) → erase k (erase k d) ≡ erase k d
  unfolding erase
  erase-erase k [] = refl
  erase-erase k ((j, w) ∷ d) = ground (arith, erase-erase k d)

-- Nodes that differ by a derived key only have one revision.
revision_but :
    (h : Hashing) (label k : String) (a b : Props)
    → is_derived k ≡ true
    → erase k a ≡ erase k b
    → content_revision h (labelled label a) ≡ content_revision h (labelled label b)
revision_but h label k a b d e =
    let base : Props = ("_LABEL", str label) ∷ [] in
    sym (content_revision-erase h (update base a) k d)
    ∙ ap (content_revision h)
        (erase-update k base a ∙ ap (update (erase k base)) e ∙ sym (erase-update k base b))
    ∙ content_revision-erase h (update base b) k d

revision_derived : is_derived "_revision" ≡ true
unfolding is_derived contains
revision_derived = refl

anchors_derived : is_derived "_source_files" ≡ true
unfolding is_derived contains
anchors_derived = refl

changed_derived : is_derived "_source_changed" ≡ true
unfolding is_derived contains
changed_derived = refl

visibility_derived : is_derived "_evidence_visibility" ≡ true
unfolding is_derived contains
visibility_derived = refl

-- The revision, and what a node has for it, after one of the functions.
record Keeps (h : Hashing) (label : String) (a b : Props) : Type 0 where
  pub revision : content_revision h (labelled label b) ≡ content_revision h (labelled label a)
  pub attached : lookup "_revision" b ≡ lookup "_revision" a

Keeps-self : (h : Hashing) (label : String) (a : Props) → Keeps h label a a
Keeps-self h label a = record { revision = refl; attached = refl }

insert-Keeps :
    (h : Hashing) (label k : String) (v : Value) (a : Props)
    → is_derived k ≡ true
    → str_eq k "_revision" ≡ false
    → Keeps h label a (insert k v a)
insert-Keeps h label k v a d e = record {
  revision = revision_but h label k (insert k v a) a d (erase-insert_self k v a);
  attached = ground (arith, lookup-insert k "_revision" v a, e);
}

erase-Keeps :
    (h : Hashing) (label k : String) (a : Props)
    → is_derived k ≡ true
    → str_eq k "_revision" ≡ false
    → Keeps h label a (erase k a)
erase-Keeps h label k a d e = record {
  revision = revision_but h label k (erase k a) a d (erase-erase k a);
  attached = ground (arith, lookup-erase k "_revision" a, e);
}

Keeps-trans :
    (h : Hashing) (label : String) (a b c : Props)
    → Keeps h label a b
    → Keeps h label b c
    → Keeps h label a c
Keeps-trans h label a b c p q = record {
  revision = q.revision ∙ p.revision;
  attached = q.attached ∙ p.attached;
}

source_changes-Keeps :
    (h : Hashing) (label : String) (files : Files) (a : Props)
    → Keeps h label a (source_changes files a)
unfolding source_changes
source_changes-Keeps h label files a = elim (Option-cases (lookup "_source_files" a)) [
  | inl e ↦ simp (source_changes, e) (Keeps-self h label a)
  | inr (encoded, e) ↦ simp (source_changes, e) (dropped (changed_sources files encoded))
]
  where
    without : Keeps h label a (erase "_source_files" a)
    without = erase-Keeps h label "_source_files" a anchors_derived refl

    dropped :
        (changed : List String)
        → Keeps h label a (elim changed [
          | [] ↦ erase "_source_files" a
          | token ∷ more ↦
              insert "_source_changed"
                (other true (files.shown (token ∷ more)))
                (erase "_source_files" a)
        ])
    dropped [] = without
    dropped (token ∷ more) =
        let v = other true (files.shown (token ∷ more)) in
        Keeps-trans h label a (erase "_source_files" a)
          (insert "_source_changed" v (erase "_source_files" a)) without
          (insert-Keeps h label "_source_changed" v (erase "_source_files" a) changed_derived refl)

qualify_props-Keeps :
    (h : Hashing) (label : String) (t : Texts) (now : ℕ) (a : Props)
    → Keeps h label a (qualify_props t now a)
unfolding qualify_props
qualify_props-Keeps h label t now a = elim (Option-cases (exclusion_reason t a now)) [
  | inl e ↦ simp (qualify_props, e) (Keeps-self h label a)
  | inr (reason, e) ↦
      simp (qualify_props, e)
        (if_inv (Keeps h label a) (str_eq reason "") a
          (insert "_evidence_visibility" (str reason) a) (λ _. Keeps-self h label a)
          (λ _. insert-Keeps h label "_evidence_visibility" (str reason) a visibility_derived refl))
]

revised-Keeps :
    (h : Hashing) (n : NodeRecord)
    → let props = (revise h n).properties in
      let revision = content_revision h (labelled n.label n.properties) in
      (content_revision h (labelled n.label props) ≡ revision)
      × (lookup "_revision" props ≡ some (str revision))
revised-Keeps h n =
    let token = str (content_revision h (labelled n.label n.properties)) in
    (
      revision_but h n.label "_revision" (insert "_revision" token n.properties) n.properties
          revision_derived (erase-insert_self "_revision" token n.properties),
      rw (lookup-insert "_revision" "_revision" token n.properties) refl,
    )

-- The token of a node: what an update is guarded by.
abbrev pub token_of : Hashing → NodeRecord → Option Value
token_of h n = some (str (content_revision h (labelled n.label n.properties)))

module _ (h : Hashing) (files : Files) (t : Texts) (now : ℕ) where
  -- A node through the three functions
  abbrev shown : NodeRecord → NodeRecord
  shown n = record n {
    properties = qualify_props t now (source_changes files (revise h n).properties);
  }

  shown_token :
      (n : NodeRecord)
      → (lookup "_revision" (shown n).properties ≡ token_of h n)
        × (token_of h (shown n) ≡ token_of h n)
  shown_token n =
      let a = (revise h n).properties in
      let b = source_changes files a in
      let c = qualify_props t now b in
      let k =
        Keeps-trans h n.label a b c (source_changes-Keeps h n.label files a)
          (qualify_props-Keeps h n.label t now b) in
      let (revision, attached) = revised-Keeps h n in
      (k.attached ∙ attached, ap (λ r. some (str r)) (k.revision ∙ revision))

  -- A subgraph that gets its revisions, its source changes and its visibility has in the `_revision` of
  -- each node the content revision of the node as it was, which is also that of the node as it is now.
  -- The edges stay, and the nodes keep their ids and their order.
  pub qualifiers-stable :
      (g : Subgraph)
      → let read = qualify t now (with_source_changes files (with_revisions h g)) in
        (map (λ n. lookup "_revision" n.properties) read.nodes ≡ map (token_of h) g.nodes)
        × (map (token_of h) read.nodes ≡ map (token_of h) g.nodes)
        × (map (λ n. n.id) read.nodes ≡ map (λ n. n.id) g.nodes)
        × (read.edges ≡ g.edges)
  qualifiers-stable g = (attached g.nodes, tokens g.nodes, same_ids g.nodes, refl)
    where
      through : List NodeRecord → List NodeRecord
      through nodes =
          (qualify t now
            (with_source_changes files (with_revisions h (record g { nodes = nodes })))).nodes

      attached :
          (nodes : List NodeRecord)
          → map (λ n. lookup "_revision" n.properties) (through nodes) ≡ map (token_of h) nodes
      attached [] = refl
      attached (n ∷ nodes) = rw ((shown_token n).0, attached nodes) refl

      tokens : (nodes : List NodeRecord) → map (token_of h) (through nodes) ≡ map (token_of h) nodes
      tokens [] = refl
      tokens (n ∷ nodes) = rw ((shown_token n).1, tokens nodes) refl

      same_ids : (nodes : List NodeRecord) → map (λ n. n.id) (through nodes) ≡ map (λ n. n.id) nodes
      same_ids [] = refl
      same_ids (n ∷ nodes) = rw (same_ids nodes) refl
