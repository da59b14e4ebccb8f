-- ===== src/Extract/Values.antt =====
-- src/grag/core/engine.py: the values of a result, and the rows of internal tables.
use grag.Base.{
  keep, String, str_eq, List, [], ◌∷◌, Option, none, some, Bool, true, false, ◌&&◌, ◌||◌, not,
  if◌then◌else◌,
}
use grag.Base.Values.{Value, str, truthy}

-- A value of a result: a plain one, a list or a tuple, or a dict.
mutual
  pub data Cell : Type 0 where
    leaf : Value → Cell
    items : Items → Cell
    dict : Fields → Cell

  pub data Items : Type 0 where
    nil : Items
    cons : Cell → Items → Items

  pub data Fields : Type 0 where
    end : Fields
    field : String → Cell → Fields → Fields

-- `v.get(key)`
unfoldable pub get_field : String → Fields → Option Cell
get_field key end = none
get_field key (field k c f) = if str_eq k key then some c else get_field key f

abbrev pub has_field : String → Fields → Bool
has_field key f = elim (get_field key f) [ none ↦ false | some _ ↦ true ]

abbrev pub is_node_value : Fields → Bool
is_node_value f = has_field "_ID" f && has_field "_LABEL" f && not (has_field "_SRC" f)

abbrev pub is_rel_value : Fields → Bool
is_rel_value f = has_field "_SRC" f && has_field "_DST" f

abbrev pub is_path_value : Fields → Bool
is_path_value f = has_field "_NODES" f && has_field "_RELS" f

abbrev pub is_true : Cell → Bool
is_true (leaf v) = truthy v
is_true (items nil) = false
is_true (dict end) = false
is_true _ = true

abbrev pub starts_reserved : String → Bool
starts_reserved String.[] = false
starts_reserved (String.◌∷◌ c s) = str_eq (String.◌∷◌ c "") "_"

-- `is_internal_label`, where `none` is None
abbrev pub is_internal_label : Option Cell → Bool
is_internal_label (some (leaf (str name))) = starts_reserved name
is_internal_label _ = false

-- `v.get("_LABEL") or v.get("_TYPE")`
abbrev pub label_or_type : Fields → Option Cell
label_or_type f = elim (get_field "_LABEL" f) [
  | none ↦ get_field "_TYPE" f
  | some c ↦ if is_true c then some c else get_field "_TYPE" f
]

-- `_has_internal_graph_value`. A path's parts are the lists that the database gives.
unfoldable mutual
  pub has_internal : Cell → Bool
  has_internal (leaf v) = false
  has_internal (items xs) = any_internal xs
  has_internal (dict f) =
      if is_node_value f || is_rel_value f
      then is_internal_label (label_or_type f)
      else if is_path_value f
      then part_internal "_NODES" f || part_internal "_RELS" f
      else values_internal f

  pub any_internal : Items → Bool
  any_internal nil = false
  any_internal (cons c xs) = has_internal c || any_internal xs

  pub values_internal : Fields → Bool
  values_internal end = false
  values_internal (field k c f) = has_internal c || values_internal f

  pub part_internal : String → Fields → Bool
  part_internal key end = false
  part_internal key (field k c f) = if str_eq k key then each_internal c else part_internal key f

  pub each_internal : Cell → Bool
  each_internal (items xs) = any_internal xs
  each_internal _ = false

pub record EngineResult : Type 0 where
  pub columns : List String
  pub rows : List (List Cell)

abbrev pub row_internal : List Cell → Bool
row_internal [] = false
row_internal (c ∷ row) = has_internal c || row_internal row

abbrev pub drop_internal_rows : EngineResult → EngineResult
drop_internal_rows result = record {
  columns = result.columns;
  rows = keep (λ row. not (row_internal row)) result.rows;
}
