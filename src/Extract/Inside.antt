-- ===== src/Extract/Inside.antt =====
-- A node or a relationship that is somewhere in the values of a result of src/grag/core/engine.py,
-- said without `walk`.
pub mod Walk
use grag.Base.{
  String, str_eq, List, [], ◌∷◌, ◌++◌, Option, none, some, Bool, true, false, All, All-append,
  All-map, ap, sym, ◌∙◌, ◌≡◌, refl, ◌⊎◌, inl, inr, Bool-cases, arith, some_inj, none-ne-some,
}
use mathlib.Core.Path.{subst}
use grag.Extract.{
  Cell, Items, Fields, leaf, items, dict, nil, cons, end, field, get_field, is_node_value,
  is_rel_value, is_path_value, Found, nothing, both, walk, walk_items, walk_values, walk_part,
  walk_each, walk_row, walk_rows,
}

-- What is looked for.
pub data Kind : Type 0 where
  node_kind rel_kind : Kind

abbrev pub is_kind : Kind → Fields → Bool
is_kind node_kind f = is_node_value f
is_kind rel_kind f = is_rel_value f

-- A dict is in a value: it is the value, it is in an item of a list, it is in a value of a dict that
-- is neither a node nor a relationship nor a path, or it is in an item of the nodes or of the
-- relationships of a path.
mutual
  pub data IsIn (k : Kind) (f : Fields) : Cell → Type 0 where
    here : is_kind k f ≡ true → IsIn k f (dict f)
    in_list : {xs : Items} → IsInItems k f xs → IsIn k f (items xs)
    in_dict :
        {d : Fields}
        → is_node_value d ≡ false
        → is_rel_value d ≡ false
        → is_path_value d ≡ false
        → IsInFields k f d
        → IsIn k f (dict d)
    in_nodes :
        {d : Fields} {xs : Items}
        → is_node_value d ≡ false
        → is_rel_value d ≡ false
        → is_path_value d ≡ true
        → get_field "_NODES" d ≡ some (items xs)
        → IsInItems k f xs
        → IsIn k f (dict d)
    in_rels :
        {d : Fields} {xs : Items}
        → is_node_value d ≡ false
        → is_rel_value d ≡ false
        → is_path_value d ≡ true
        → get_field "_RELS" d ≡ some (items xs)
        → IsInItems k f xs
        → IsIn k f (dict d)

  pub data IsInItems (k : Kind) (f : Fields) : Items → Type 0 where
    this_item : {c : Cell} {xs : Items} → IsIn k f c → IsInItems k f (cons c xs)
    later_item : {c : Cell} {xs : Items} → IsInItems k f xs → IsInItems k f (cons c xs)

  pub data IsInFields (k : Kind) (f : Fields) : Fields → Type 0 where
    this_field :
        {key : String} {c : Cell} {d : Fields} → IsIn k f c → IsInFields k f (field key c d)
    later_field :
        {key : String} {c : Cell} {d : Fields} → IsInFields k f d → IsInFields k f (field key c d)

pub data IsInRow (k : Kind) (f : Fields) : List Cell → Type 0 where
  this_cell : {c : Cell} {row : List Cell} → IsIn k f c → IsInRow k f (c ∷ row)
  later_cell : {c : Cell} {row : List Cell} → IsInRow k f row → IsInRow k f (c ∷ row)

-- In a row of a result
pub data IsInRows (k : Kind) (f : Fields) : List (List Cell) → Type 0 where
  this_row :
      {row : List Cell} {rows : List (List Cell)} → IsInRow k f row → IsInRows k f (row ∷ rows)
  later_row :
      {row : List Cell} {rows : List (List Cell)} → IsInRows k f rows → IsInRows k f (row ∷ rows)
