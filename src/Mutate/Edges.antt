-- ===== src/Mutate/Edges.antt =====
-- `_upsert_edges` of src/grag/core/mutate.py, and that it leaves nodes and their history alone.
use grag.Base.{
  String, ◌<>◌, List, [], ◌∷◌, ◌++◌, Option, none, some, Bool, true, false, not, ◌&&◌,
  if◌then◌else◌, str_eq, ◌≡◌, pair-eq, Bool-cases, inl, inr,
}
use grag.Base.Dict.{Dict, has}
use grag.Base.Values.{Props, str}
use grag.Base.Result.{
  schema_error, not_found, Result, returned, raised, ◌>>=◌, bind-returned, returned_inj,
  raised-ne-returned,
}
use grag.Graph.{make_node_id}
use grag.History.{Database, merge_edge}
use grag.History.Laws.{IsDatabase}
use grag.History.Steps.{SameHistory, SameHistory-refl, SameHistory-trans, SameHistory-of_nodes}
use grag.Mutate.{Conversions, Accepted, Warning, sanitize_props, set_if, source_set, add_warnings}
use mathlib.Core.Path.{subst}

pub record UpsertEdge : Type 0 where
  pub kind : String
  pub from_label : String
  pub from_key : String
  pub to_label : String
  pub to_key : String
  pub properties : Props
  pub source : Option String
  pub expected_revision : Option String

module _ (db : Database) (v : Conversions) where
  abbrev pub from_id : UpsertEdge → String
  from_id e = make_node_id e.from_label e.from_key

  abbrev pub to_id : UpsertEdge → String
  to_id e = make_node_id e.to_label e.to_key

  abbrev pub connects : UpsertEdge → Option (String × String) → Bool
  connects e none = false
  connects e (some (a, b)) = str_eq e.from_label a && str_eq e.to_label b

  -- The first loop: each type is known, and connects the labels.
  abbrev pub all_connect : List UpsertEdge → db.State → Bool
  all_connect [] s = true
  all_connect (e ∷ es) s = connects e (db.endpoints s e.kind) && all_connect es s

  abbrev pub is_there : String → String → db.State → Bool
  is_there label id s = elim (db.primary_key s label) [
    | none ↦ false
    | some pk ↦ elim (db.node s id) [ none ↦ false | some _ ↦ true ]
  ]

  -- The second loop: each end is there.
  abbrev pub all_there : List UpsertEdge → db.State → Bool
  all_there [] s = true
  all_there (e ∷ es) s =
      is_there e.from_label (from_id e) s && is_there e.to_label (to_id e) s && all_there es s

  -- A document and a code owner
  abbrev pub Owners : Type 0
  Owners = Option String × Option String

  abbrev pub owner_text : Option String → String
  owner_text none = ""
  owner_text (some o) = o

  abbrev pub owner_set : Owners → Dict String → Props
  owner_set (document, code) columns =
      set_if db v (has "_document_owner" columns) "_document_owner" (str (owner_text document))
      ++ set_if db v (has "_code_owner" columns) "_code_owner" (str (owner_text code))

  abbrev pub is_owned : Owners → Bool
  is_owned (none, none) = false
  is_owned (some _, code) = true
  is_owned (none, some _) = true

  -- `ON CREATE SET` and `ON MATCH SET` of an edge: an owner claims new edges only.
  unfoldable pub edge_sets : UpsertEdge → Owners → Dict String → Props → Props
  edge_sets e owners columns values =
      values ++ (source_set db v e.source columns ++ owner_set owners columns)

  unfoldable pub edge_matches : UpsertEdge → Owners → Dict String → Props → Props
  edge_matches e owners columns values =
      if is_owned owners then [] else edge_sets e owners columns values

  abbrev pub edge_owner : UpsertEdge → String
  edge_owner e =
      "Edge " <> e.kind <> "(" <> e.from_label <> ":" <> e.from_key <> "->" <> e.to_label <> ":"
      <> e.to_key <> ")"

  unfoldable pub merge_edge_with :
      UpsertEdge → Owners → db.State → Accepted → Result (List Warning × db.State)
  merge_edge_with e owners s a =
      let columns = db.columns s e.kind in
      db.write
        (merge_edge e.kind (from_id e) (to_id e) (edge_sets e owners columns a.values)
          (edge_matches e owners columns a.values))
        s
      >>= (λ s'. returned (a.warnings, s'))

  unfoldable pub upsert_edge : UpsertEdge → Owners → db.State → Result (List Warning × db.State)
  upsert_edge e owners s =
      sanitize_props v (edge_owner e) (db.columns s e.kind) e.properties
      >>= merge_edge_with e owners s

  -- The last loop
  unfoldable pub upsert_each_edge :
      List UpsertEdge → Owners → db.State → Result (List Warning × db.State)
  upsert_each_edge [] owners s = returned ([], s)
  upsert_each_edge (e ∷ es) owners s =
      let rest = upsert_each_edge es owners in
      upsert_edge e owners s >>= (λ r. rest r.1 >>= add_warnings db v r.0)

  -- `_upsert_edges`
  unfoldable pub upsert_edges :
      List UpsertEdge → Owners → db.State → Result (List Warning × db.State)
  upsert_edges es owners s =
      if not (all_connect es s)
      then raised schema_error
      else if not (all_there es s)
      then raised not_found
      else upsert_each_edge es owners s

  module _ (laws : IsDatabase db) where
    edge-SameHistory :
        (e : UpsertEdge) (owners : Owners) (s : db.State) (r : List Warning × db.State)
        → upsert_edge e owners s ≡ returned r
        → SameHistory db s r.1
    unfolding upsert_edge merge_edge_with
    edge-SameHistory e owners s r h =
        let columns = db.columns s e.kind in
        let (a, accepted, merged) =
          bind-returned (sanitize_props v (edge_owner e) columns e.properties)
            (merge_edge_with e owners s) r h in
        let created : Props = edge_sets e owners columns a.values in
        let matched : Props = edge_matches e owners columns a.values in
        let (t, made, last) =
          bind-returned (db.write (merge_edge e.kind (from_id e) (to_id e) created matched) s)
            (λ t. returned (a.warnings, t)) r merged in
        subst (SameHistory db s) (pair-eq (a.warnings, t) r (returned_inj last)).1 (
          SameHistory-of_nodes db s t
            (laws.merge_edge_rows e.kind (from_id e) (to_id e) created matched s t made)
            (λ id. laws.merge_edge_node e.kind (from_id e) (to_id e) created matched s t id made))

    edges-SameHistory :
        (es : List UpsertEdge) (owners : Owners) (s : db.State) (r : List Warning × db.State)
        → upsert_each_edge es owners s ≡ returned r
        → SameHistory db s r.1
    unfolding upsert_each_edge
    edges-SameHistory [] owners s r h =
        subst (SameHistory db s) (pair-eq ([], s) r (returned_inj h)).1 (SameHistory-refl db s)
    edges-SameHistory (e ∷ es) owners s r h =
        let (q, one, h1) =
          bind-returned (upsert_edge e owners s)
            (λ q. upsert_each_edge es owners q.1 >>= add_warnings db v q.0) r h in
        let (p, rest, last) =
          bind-returned (upsert_each_edge es owners q.1) (add_warnings db v q.0) r h1 in
        subst (SameHistory db s) (pair-eq (q.0 ++ p.0, p.1) r (returned_inj last)).1 (
          SameHistory-trans db s q.1 p.1 (edge-SameHistory e owners s q one)
            (edges-SameHistory es owners q.1 p rest))

    -- Where `_upsert_edges` returns, the history and every node are as before.
    pub upsert_edges-SameHistory :
        (es : List UpsertEdge) (owners : Owners) (s : db.State) (r : List Warning × db.State)
        → upsert_edges es owners s ≡ returned r
        → SameHistory db s r.1
    unfolding upsert_edges
    upsert_edges-SameHistory es owners s r h = elim (Bool-cases (not (all_connect es s))) [
      | inl e ↦ absurd (raised-ne-returned (rw e at h))
      | inr e ↦ elim (Bool-cases (not (all_there es s))) [
        | inl f ↦ absurd (raised-ne-returned (rw (e, f) at h))
        | inr f ↦ edges-SameHistory es owners s r (rw (e, f) at h)
      ]
    ]
