-- ===== src/Extract/Tests.antt =====
-- A result with a path, a node in a list, and a row of an internal table.
use grag.Base.{String, str_eq, [], ◌∷◌, Bool, true, false, All, ◌≡◌, ◌↔◌, refl}
use grag.Base.Dict.{contains, lookup, insert}
use grag.Graph.{make_node_id}
use grag.Base.Values.{str}
use grag.Extract.{
  Cell, Fields, leaf, items, dict, nil, cons, end, field, get_field, starts_reserved, EngineResult,
  drop_internal_rows, walk_rows, Python, node_record_from_value, edge_record_from_value,
  collect_nodes, extract_subgraph, walk, has_internal, walk_row, id_of, collect_edges,
}
use grag.Extract.Internal.{extract_subgraph-shown}
use grag.Extract.Resolved.{
  ids_of_nodes, ids_of_edges, IsAtEnd, edge_id, extract_subgraph-Distinct, endpoint-resolved,
}
use grag.Extract.Collected.{Distinct}
use grag.Extract.Inside.{
  node_kind, rel_kind, here, in_nodes, in_rels, this_item, later_item, this_cell, IsInRows,
  this_row,
}

abbrev text : String → Cell
text s = leaf (str s)

-- An interpreter whose texts are all the same, and which compares texts.
abbrev python : Python
python = record { text = λ c. "?"; equal = same }
  where
    same : Cell → Cell → Bool
    same (leaf (str a)) (leaf (str b)) = str_eq a b
    same a b = false

abbrev internal_id : String → Cell
internal_id offset = dict (field "table" (text "0") (field "offset" (text offset) end))

abbrev node : String → String → Fields
node label offset =
    field "_ID" (internal_id offset) (field "_LABEL" (text label) (field "id" (text offset) end))

abbrev rel : Fields
rel =
    field "_SRC" (internal_id "1")
      (field "_DST" (internal_id "2") (field "_LABEL" (text "CALLS") end))

abbrev path : Cell
path = dict (
    field "_NODES"
      (items (cons (dict (node "Function" "1")) (cons (dict (node "Function" "2")) nil)))
      (field "_RELS" (items (cons (dict rel) nil)) end))

abbrev result : EngineResult
result = record {
  columns = "p" ∷ [];
  rows =
      (path ∷ [])
      ∷ (items (cons (dict (node "Function" "1")) nil) ∷ [])
      ∷ (dict (node "_grag_tables" "3") ∷ [])
      ∷ [];
}

ids_of_result :
    ids_of_nodes (extract_subgraph python (("Function", "id") ∷ []) (drop_internal_rows result))
    ≡ "Function:1" ∷ "Function:2" ∷ []
unfolding extract_subgraph walk_rows has_internal get_field walk_row walk lookup insert
    collect_nodes node_record_from_value make_node_id
ids_of_result = refl

edges_of_result :
    ids_of_edges (extract_subgraph python (("Function", "id") ∷ []) (drop_internal_rows result))
    ≡ "CALLS:Function:1->Function:2" ∷ []
unfolding extract_subgraph collect_edges walk_rows has_internal get_field walk_row walk lookup
    insert edge_record_from_value id_of collect_nodes node_record_from_value make_node_id
edges_of_result = refl

extract_subgraph-shown_example :
    let g = extract_subgraph python [] (drop_internal_rows result) in
    All (λ n. starts_reserved n.label ≡ false) g.nodes
    × All (λ e. starts_reserved e.kind ≡ false) g.edges
extract_subgraph-shown_example = extract_subgraph-shown python [] result (λ c. refl)

extract_subgraph-Distinct_example :
    let g = extract_subgraph python [] result in
    Distinct (ids_of_nodes g)
    × Distinct (ids_of_edges g)
    × ((contains (ids_of_nodes g) "Function#0:1" ≡ true) ↔ (
        (f : Fields) × IsInRows node_kind f result.rows
        × ((node_record_from_value python [] f).id ≡ "Function#0:1")))
extract_subgraph-Distinct_example = extract_subgraph-Distinct python [] result "Function#0:1"

first_inside : IsInRows node_kind (node "Function" "1") result.rows
unfolding get_field
first_inside = this_row (this_cell (in_nodes refl refl refl refl (this_item (here refl))))

second_inside : IsInRows node_kind (node "Function" "2") result.rows
unfolding get_field
second_inside =
    this_row (this_cell (in_nodes refl refl refl refl (later_item (this_item (here refl)))))

rel_inside : IsInRows rel_kind rel result.rows
unfolding get_field
rel_inside = this_row (this_cell (in_rels refl refl refl refl (this_item (here refl))))

first_at_source : IsAtEnd python (node "Function" "1") (get_field "_SRC" rel)
unfolding get_field
first_at_source = (refl, refl)

second_at_target : IsAtEnd python (node "Function" "2") (get_field "_DST" rel)
unfolding get_field
second_at_target = (refl, refl)

endpoint-resolved_example :
    (m : Fields) × (m' : Fields) × IsInRows node_kind m result.rows
    × IsAtEnd python m (get_field "_SRC" rel)
    × IsInRows node_kind m' result.rows
    × IsAtEnd python m' (get_field "_DST" rel)
    × (contains
          (ids_of_edges (extract_subgraph python [] result))
          (edge_id python [] result rel m m')
        ≡ true)
endpoint-resolved_example =
    endpoint-resolved python [] result rel (node "Function" "1") (node "Function" "2") rel_inside
      first_inside first_at_source second_inside second_at_target
