-- ===== src/Extract.antt =====
-- src/grag/core/engine.py: the nodes and relationships in the values of a query's result, and the rows
-- that show internal tables.
mod Values
pub mod Collected
pub mod Inside
pub mod Internal
pub mod Resolved
mod Tests
unfoldable pub use Values.*
use Prim.Native.String
use grag.Base.{
  keep, String, ◌<>◌, str_eq, List, [], ◌∷◌, ◌++◌, map, Option, none, some, Bool, true, false, ◌&&◌,
  ◌||◌, not, if◌then◌else◌,
}
use grag.Base.Dict.{Dict, lookup, insert, has, contains}
use grag.Base.Values.{Value, null, str, other, is_null, truthy}
use grag.Graph.{NodeRecord, EdgeRecord, Subgraph, make_node_id}

-- `node_vals` and `rel_vals`
pub record Found : Type 0 where
  pub nodes : List Fields
  pub rels : List Fields

abbrev pub nothing : Found
nothing = record { nodes = []; rels = [] }

abbrev pub both : Found → Found → Found
both a b = record { nodes = a.nodes ++ b.nodes; rels = a.rels ++ b.rels }

-- `walk`
unfoldable mutual
  pub walk : Cell → Found
  walk (leaf v) = nothing
  walk (items xs) = walk_items xs
  walk (dict f) =
      if is_node_value f
      then record { nodes = f ∷ []; rels = [] }
      else if is_rel_value f
      then record { nodes = []; rels = f ∷ [] }
      else if is_path_value f
      then both (walk_part "_NODES" f) (walk_part "_RELS" f)
      else walk_values f

  pub walk_items : Items → Found
  walk_items nil = nothing
  walk_items (cons c xs) = both (walk c) (walk_items xs)

  pub walk_values : Fields → Found
  walk_values end = nothing
  walk_values (field k c f) = both (walk c) (walk_values f)

  pub walk_part : String → Fields → Found
  walk_part key end = nothing
  walk_part key (field k c f) = if str_eq k key then walk_each c else walk_part key f

  pub walk_each : Cell → Found
  walk_each (items xs) = walk_items xs
  walk_each _ = nothing

unfoldable pub walk_row : List Cell → Found
walk_row [] = nothing
walk_row (c ∷ row) = both (walk c) (walk_row row)

unfoldable pub walk_rows : List (List Cell) → Found
walk_rows [] = nothing
walk_rows (row ∷ rows) = both (walk_row row) (walk_rows rows)

-- `str(v)` of a value that is not a str, and `==` of two values.
pub record Python : Type 0 where
  pub text : Cell → String
  pub equal : Cell → Cell → Bool

abbrev pub hidden_node_props : List String
hidden_node_props =
    "_ID" ∷ "_LABEL" ∷ "embedding" ∷ "_emb_code" ∷ "_emb_fingerprint" ∷ "_index_options"
    ∷ "_index_generation" ∷ "_index_error" ∷ []

abbrev pub hidden_rel_props : List String
hidden_rel_props = "_ID" ∷ "_LABEL" ∷ "_SRC" ∷ "_DST" ∷ "_document_owner" ∷ []

-- A table and an offset
abbrev pub InternalKey : Type 0
InternalKey = Cell × Cell

abbrev pub or_none : Option Cell → Cell
or_none none = leaf null
or_none (some c) = c

abbrev pub internal_key : Option Cell → InternalKey
internal_key (some (dict f)) = (or_none (get_field "table" f), or_none (get_field "offset" f))
internal_key _ = (leaf null, leaf null)

-- `d.setdefault(k, v)`
abbrev pub set_default {ℓ} : {V : Type ℓ} → String → V → Dict V → Dict V
set_default k v d = if has k d then d else insert k v d

module _ (py : Python) where
  abbrev pub text_of : Cell → String
  text_of (leaf (str s)) = s
  text_of c = py.text c

  -- A property's value; of a list or a dict, its truth and its text.
  abbrev pub plain : Cell → Value
  plain (leaf v) = v
  plain c = other (is_true c) (py.text c)

  unfoldable pub visible : List String → Fields → Dict Value
  visible hidden end = []
  visible hidden (field k c f) =
      let rest = visible hidden f in
      if contains hidden k || is_null (plain c) then rest else (k, plain c) ∷ rest

  abbrev pub reference : InternalKey → String
  reference (table, offset) = "#" <> (text_of table <> (":" <> text_of offset))

  abbrev pub fallback_ref : Option Cell → String
  fallback_ref ref = reference (internal_key ref)

  abbrev pub label_text : Fields → String
  label_text f = elim (get_field "_LABEL" f) [ none ↦ "" | some c ↦ text_of c ]

  -- `v[pk]`, where there is such a key
  abbrev pub key_value : Option String → Fields → Option Cell
  key_value none f = none
  key_value (some pk) f = if str_eq pk "" then none else get_field pk f

  unfoldable pub node_record_from_value : Dict String → Fields → NodeRecord
  node_record_from_value pk_by_label f = record {
    id = elim (key_value (lookup (label_text f) pk_by_label) f) [
      | some c ↦ make_node_id (label_text f) (text_of c)
      | none ↦ label_text f <> reference (internal_key (get_field "_ID" f))
    ];
    label = label_text f;
    properties = visible hidden_node_props f;
  }

  abbrev pub Ids : Type 0
  Ids = List (InternalKey × String)

  abbrev pub key_eq : InternalKey → InternalKey → Bool
  key_eq a b = py.equal a.0 b.0 && py.equal a.1 b.1

  -- `id_of_internal.get(key, default)`; what was assigned last comes first.
  unfoldable pub id_of : Ids → InternalKey → String → String
  id_of [] key default = default
  id_of ((k, id) ∷ ids) key default = if key_eq k key then id else id_of ids key default

  abbrev pub kind_text : Fields → String
  kind_text f = elim (label_or_type f) [
    | none ↦ "REL"
    | some c ↦ if is_true c then text_of c else "REL"
  ]

  abbrev pub endpoint : Ids → String → Fields → String
  endpoint ids side f =
      id_of ids (internal_key (get_field side f)) (fallback_ref (get_field side f))

  unfoldable pub edge_record_from_value : Ids → Fields → EdgeRecord
  edge_record_from_value ids f =
      let kind = kind_text f in
      let source = endpoint ids "_SRC" f in
      let target = endpoint ids "_DST" f in
      record {
        id = kind <> (":" <> (source <> ("->" <> target)));
        kind = kind;
        source = source;
        target = target;
        properties = visible hidden_rel_props f;
      }

  -- The two loops of `extract_subgraph`
  unfoldable pub collect_nodes :
      Dict String → List Fields → Dict NodeRecord × Ids → Dict NodeRecord × Ids
  collect_nodes pks [] c = c
  collect_nodes pks (f ∷ found) (nodes, ids) =
      let rec_ = node_record_from_value pks f in
      collect_nodes pks found
        (set_default rec_.id rec_ nodes, (internal_key (get_field "_ID" f), rec_.id) ∷ ids)

  unfoldable pub collect_edges : Ids → List Fields → Dict EdgeRecord → Dict EdgeRecord
  collect_edges ids [] edges = edges
  collect_edges ids (f ∷ found) edges =
      let rec_ = edge_record_from_value ids f in
      collect_edges ids found (set_default rec_.id rec_ edges)

  unfoldable pub extract_subgraph : Dict String → EngineResult → Subgraph
  extract_subgraph pks result =
      let found = walk_rows result.rows in
      let (nodes, ids) = collect_nodes pks found.nodes ([], []) in
      record {
        nodes = map (λ p. p.1) nodes;
        edges = map (λ p. p.1) (collect_edges ids found.rels []);
      }
