-- ===== src/Pack/Tests.antt =====
-- Packed contexts of a small graph, and the theorems at it.
use grag.Base.Dict.{contains, lookup, insert, erase, update, keys, filter_items}
use grag.Pack.Render.{
  estimate_tokens, join, any_char, render_value, render_props, node_line, edge_line,
}
use grag.Pack.State.{
  originals, original_edges, props_of, total_size, node_sizes, edge_sizes, excerpt_line, build,
  modify, get_elem?,
}
use grag.Pack.Fill.{
  rank, priority, insert_by, sort_by, is_metadata, xor_not, wanted, lacks_safety, refs_from,
  fields_of, fields, offer, excerpts_for, fill_node, fill_edge, fill_ref, fill_field, fill,
  fill_all,
}
use grag.Pack.Phases.{
  is_text, is_cited, is_first, citation, short_text, has_safety, find_node, positions, first_link,
  edge_refs, skips_docstring, add_prose, skeleton, adjacent, link, admit, topology, neighbor,
  neighbors, first_pair, all_adjacent, connect_first, cite_at, cite, connect_edge, connect, links,
  is_stray, extend, spend, select,
}
use grag.Pack.{node_map, seed_nodes, other_nodes, ordered_nodes, scope_of, chosen, pack_context}
use grag.Graph.{make_node_id, partition_colon, split_node_id}
use grag.Base.{ℕ, ◌≤◌, String, ◌<>◌, [], ◌∷◌, ◌≡◌, refl, ◌⊎◌, some, none, true, All}
use grag.Base.Dict.{has}
use grag.Base.Values.{Value, Python}
use grag.Graph.{NodeRecord, EdgeRecord, Subgraph}
use grag.Pack.Render.{safety_props}
use grag.Pack.State.{Scope, PackedContext, nothing}
use grag.Pack.Fill.{original_props}
use grag.Pack.Phases.{joins}
use grag.Pack.Budget.{pack_context_fits}
use grag.Pack.Default.{default_measure, default-ClearShrinks, pack_context-default_fits}
use grag.Pack.Coherence.{pack_context-coherent}
use grag.Pack.Safety.{pack_context-safe}

abbrev show : Value → String
show (Value.str s) = s
show (Value.int n) = "1"
show _ = "null"

abbrev plain : Python
plain = record {
  dumps = λ v. some ("'" <> show v <> "'");
  dumps_text = λ s. s;
  format = show;
  isoformat = λ v. none;
}

abbrev doc : String → String → NodeRecord
doc key body = record {
  id = "Doc:" <> key;
  label = "Doc";
  properties =
      ("id", Value.str key)
      ∷ ("body", Value.str body)
      ∷ ("status", Value.str "superseded")
      ∷ ("_source", Value.str "a.md")
      ∷ [];
}

abbrev related : EdgeRecord
related = record {
  id = "RELATED:Doc:a->Doc:b";
  kind = "RELATED";
  source = "Doc:a";
  target = "Doc:b";
  properties = ("since", Value.int 2024) ∷ [];
}

abbrev small : Subgraph
small = record { nodes = doc "a" "first" ∷ doc "b" "second" ∷ []; edges = related ∷ [] }

abbrev small_scope : Scope
small_scope = scope_of plain small 25 ("Doc:b" ∷ []) default_measure []

abbrev packed : ℕ → PackedContext
packed budget = pack_context plain small budget ("Doc:b" ∷ []) default_measure []

-- Under pressure: the seed with its citation and status, and no edge.
seed_only : (packed 25).text ≡ "Doc:b {status: 'superseded', body: 'second'} [source: a.md]"
unfolding contains lookup insert erase update keys filter_items estimate_tokens join any_char
    render_value render_props node_line edge_line originals original_edges props_of total_size
    node_sizes edge_sizes excerpt_line build modify get_elem? rank priority insert_by sort_by
    is_metadata xor_not wanted lacks_safety refs_from fields_of fields offer excerpts_for fill_node
    fill_edge fill_ref fill_field fill fill_all is_text is_cited is_first citation short_text
    has_safety find_node positions first_link edge_refs skips_docstring add_prose skeleton adjacent
    link admit topology neighbor neighbors first_pair all_adjacent connect_first cite_at cite
    connect_edge connect links is_stray extend spend select node_map seed_nodes other_nodes
    ordered_nodes scope_of chosen pack_context make_node_id partition_colon split_node_id
seed_only = refl

pack_context_fits_example :
    ((packed 25).token_estimate ≤ 25)
    ⊎ ((packed 25 ≡ build small_scope nothing) × (25 ≤ (build small_scope nothing).token_estimate))
pack_context_fits_example =
    pack_context_fits plain small 25 ("Doc:b" ∷ []) default_measure []
      (default-ClearShrinks plain small 25 ("Doc:b" ∷ []) [])

pack_context-default_fits_example : (packed 25).token_estimate ≤ 25
pack_context-default_fits_example = pack_context-default_fits plain small 25 ("Doc:b" ∷ []) []

pack_context-coherent_example :
    All (λ e. joins e (packed 60).included_node_ids ≡ true) (packed 60).subgraph.edges
pack_context-coherent_example =
    pack_context-coherent plain small 60 ("Doc:b" ∷ []) default_measure []

pack_context-safe_example :
    All
      (λ n.
        (n.properties ≡ [])
        ⊎ ((q : String)
            → contains safety_props q ≡ true
            → has q (original_props small_scope n.id) ≡ true
            → has q n.properties ≡ true))
      (packed 25).subgraph.nodes
pack_context-safe_example = pack_context-safe plain small 25 ("Doc:b" ∷ []) default_measure []
