-- ===== src/Extract/Resolved.antt =====
-- The ids of an extracted subgraph, and the ends of its edges.
use grag.Base.{
  String, ◌<>◌, List, [], ◌∷◌, map, true, Option, none, some, All, ◌≡◌, ◌∙◌, refl, sym, ap, ◌↔◌,
  arith,
}
use mathlib.Core.Path.{subst}
use grag.Base.Dict.{Dict, lookup, has, contains}
use grag.Graph.{NodeRecord, Subgraph}
use grag.Extract.{
  Cell, Fields, leaf, dict, get_field, or_none, EngineResult, walk_rows, Python, InternalKey,
  internal_key, node_record_from_value, edge_record_from_value, key_eq, items, kind_text, endpoint,
  fallback_ref, Ids, collect_nodes, collect_edges, extract_subgraph,
}
use grag.Base.Values.{null}
use grag.Extract.Inside.{node_kind, rel_kind, IsInRows}
use grag.Extract.Inside.Walk.{holds-rows, found-rows}
use grag.Extract.Collected.{
  Distinct, ids, contains-ids, ids-Distinct, knows, collect_nodes-Collected, collect_nodes-Keyed,
  collect_nodes-Named, id_of-Named, collect_edges-IsById, collect_edges-there,
}

abbrev pub ids_of_nodes : Subgraph → List String
ids_of_nodes g = map (λ n. n.id) g.nodes

abbrev pub ids_of_edges : Subgraph → List String
ids_of_edges g = map (λ e. e.id) g.edges

map-values : {V : Type 0} (id : V → String) (d : Dict V) → map id (map (λ p. p.1) d) ≡ ids id d
map-values id [] = refl
map-values id (p ∷ d) = rw (map-values id d) refl

contains-values :
    {V : Type 0} (id : V → String) (d : Dict V) (k : String)
    → All (λ p. p.0 ≡ id p.1) d
    → contains (map id (map (λ p. p.1) d)) k ≡ has k d
contains-values id d k h = rw (map-values id d) (contains-ids id d k h)

nothing-there : (k : String) → has {V = NodeRecord} k [] ≡ true → ⊥
unfolding lookup
nothing-there k h = cc

-- The records of an extracted subgraph have different ids, the nodes and the edges, and a text is
-- the id of one of the nodes exactly where it is the id of the record of a node value that is in
-- the result: in a row, in a list, in a dict, or among the nodes or relationships of a path, however
-- deep.
pub extract_subgraph-Distinct :
    (py : Python) (pks : Dict String) (result : EngineResult) (id : String)
    → let g = extract_subgraph py pks result in
      Distinct (ids_of_nodes g)
      × Distinct (ids_of_edges g)
      × ((contains (ids_of_nodes g) id ≡ true) ↔ (
          (f : Fields) × IsInRows node_kind f result.rows
          × ((node_record_from_value py pks f).id ≡ id)))
unfolding extract_subgraph
extract_subgraph-Distinct py pks result id =
    let found = walk_rows result.rows in
    let c = collect_nodes py pks found.nodes ([], []) in
    let edges = collect_edges py c.1 found.rels [] in
    let i = collect_nodes-Collected py pks found.nodes [] [] (record { unique = tt; named = tt }) in
    let j = collect_edges-IsById py c.1 found.rels [] (record { unique = tt; named = tt }) in
    let same = contains-values (λ n. n.id) c.0 id i.by_id.named in
    let into : has id c.0 ≡ true
        → (f : Fields) × IsInRows node_kind f result.rows
          × ((node_record_from_value py pks f).id ≡ id) =
      collect_nodes-Named py pks (λ f. IsInRows node_kind f result.rows) found.nodes [] []
        (found-rows node_kind result.rows) (λ k h. absurd (nothing-there k h)) id in
    let back : (f : Fields)
        → IsInRows node_kind f result.rows
        → has (node_record_from_value py pks f).id c.0 ≡ true =
      λ f inside.
        holds-rows node_kind (λ f. has (node_record_from_value py pks f).id c.0 ≡ true) inside
          i.all_there in
    (
      rw (map-values (λ n. n.id) c.0) (ids-Distinct (λ n. n.id) c.0 i.by_id),
      rw (map-values (λ e. e.id) edges) (ids-Distinct (λ e. e.id) edges j),
      (
        λ h. into (sym same ∙ h),
        λ (f, inside, named). same ∙ subst (λ k. has k c.0 ≡ true) named (back f inside),
      ),
    )

-- A part of an internal id, or None where it has none.
abbrev pub part_of : String → Option Cell → Cell
part_of name (some (dict f)) = or_none (get_field name f)
part_of name _ = leaf null

-- The internal id of a node value has a table and an offset that equal those of an end.
abbrev pub IsAtEnd : Python → Fields → Option Cell → Type 0
IsAtEnd py n ref =
    (py.equal (part_of "table" (get_field "_ID" n)) (part_of "table" ref) ≡ true)
    × (py.equal (part_of "offset" (get_field "_ID" n)) (part_of "offset" ref) ≡ true)

internal_key-parts : (c : Option Cell) → internal_key c ≡ (part_of "table" c, part_of "offset" c)
internal_key-parts (some (dict f)) = refl
internal_key-parts (some (leaf v)) = refl
internal_key-parts (some (items xs)) = refl
internal_key-parts none = refl

module _ (py : Python) where
  key_eq-IsAtEnd :
      (n : Fields) (ref : Option Cell)
      → (key_eq py (internal_key (get_field "_ID" n)) (internal_key ref) ≡ true) ↔ IsAtEnd py n ref
  key_eq-IsAtEnd n ref =
      rw (internal_key-parts (get_field "_ID" n), internal_key-parts ref)
        (λ h. (ground (arith, h), ground (arith, h)), λ (a, b). ground (arith, a, b))

  -- If a node value in a result is at an end of a relationship, then the edge's record has there the
  -- id of the record of a node value that is at this end.
  module _ (pks : Dict String) (result : EngineResult) where
    abbrev known : Ids py
    known = (collect_nodes py pks (walk_rows result.rows).nodes ([], [])).1

    endpoint-At :
        (n r : Fields) (side : String)
        → IsInRows node_kind n result.rows
        → IsAtEnd py n (get_field side r)
        → (m : Fields) × IsInRows node_kind m result.rows
          × IsAtEnd py m (get_field side r)
          × (endpoint py known side r ≡ (node_record_from_value py pks m).id)
    endpoint-At n r side inside end_ =
        let ref = get_field side r in
        let found = walk_rows result.rows in
        let i =
          collect_nodes-Collected py pks found.nodes [] [] (record { unique = tt; named = tt }) in
        let knows_it : knows py known (internal_key ref) ≡ true =
          holds-rows node_kind
            (λ f.
              (key : InternalKey)
              → key_eq py (internal_key (get_field "_ID" f)) key ≡ true
              → knows py known key ≡ true)
            inside i.all_keys (internal_key ref) ((key_eq-IsAtEnd n ref).1 end_) in
        let keyed =
          collect_nodes-Keyed py pks (λ f. IsInRows node_kind f result.rows) found.nodes [] []
            (found-rows node_kind result.rows) tt in
        let (m, q, equal, same) =
          id_of-Named py pks (λ f. IsInRows node_kind f result.rows) known (internal_key ref)
            (fallback_ref py ref) keyed knows_it in
        (m, q, (key_eq-IsAtEnd m ref).0 equal, same)

    -- `{kind}:{source}->{target}`
    abbrev pub edge_id : Fields → Fields → Fields → String
    edge_id r m n =
        kind_text py r
        <> (":"
            <> ((node_record_from_value py pks m).id
                <> ("->" <> (node_record_from_value py pks n).id)))

    -- If a relationship value is in a result, however deep, and so are node values n and n', where the
    -- internal id of n has the table and the offset of the relationship's source, and that of n' those
    -- of its target, then the subgraph has an edge with the id that is made of the relationship's
    -- type and the ids of the records of two node values in the result, whose internal ids also have
    -- the table and the offset of the source and of the target.
    pub endpoint-resolved :
        (r n n' : Fields)
        → IsInRows rel_kind r result.rows
        → IsInRows node_kind n result.rows
        → IsAtEnd py n (get_field "_SRC" r)
        → IsInRows node_kind n' result.rows
        → IsAtEnd py n' (get_field "_DST" r)
        → (m : Fields) × (m' : Fields) × IsInRows node_kind m result.rows
          × IsAtEnd py m (get_field "_SRC" r)
          × IsInRows node_kind m' result.rows
          × IsAtEnd py m' (get_field "_DST" r)
          × (contains (ids_of_edges (extract_subgraph py pks result)) (edge_id r m m') ≡ true)
    unfolding extract_subgraph edge_record_from_value
    endpoint-resolved r n n' rel inside at_source inside' at_target =
        let found = walk_rows result.rows in
        let (m, in_m, at_m, source) = endpoint-At n r "_SRC" inside at_source in
        let (m', in_m', at_m', target) = endpoint-At n' r "_DST" inside' at_target in
        let edges = collect_edges py known found.rels [] in
        let i = collect_edges-IsById py known found.rels [] (record { unique = tt; named = tt }) in
        let there =
          holds-rows rel_kind (λ f. has (edge_record_from_value py known f).id edges ≡ true) rel
            (collect_edges-there py known found.rels []).1 in
        let named : (edge_record_from_value py known r).id ≡ edge_id r m m' =
          ap
            (λ (t : String). kind_text py r <> (":" <> (t <> ("->" <> endpoint py known "_DST" r))))
            source
          ∙ ap
              (λ (t : String).
                kind_text py r <> (":" <> ((node_record_from_value py pks m).id <> ("->" <> t))))
              target in
        (
          m,
          m',
          in_m,
          at_m,
          in_m',
          at_m',
          contains-values (λ e. e.id) edges (edge_id r m m') i.named
              ∙ subst (λ t. has t edges ≡ true) named there,
        )
