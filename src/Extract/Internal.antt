-- ===== src/Extract/Internal.antt =====
-- Internal tables do not show after `drop_internal_rows`.
use grag.Base.{
  String, str_eq, eq_iff, List, [], ◌∷◌, map, keep, some, Bool, true, false, ◌||◌, not,
  if◌then◌else◌, if_inv, All, All-append, ◌≡◌, refl, Bool-cases, Option-cases, inl, inr, arith,
}
use grag.Base.Dict.{Dict, insert, has}
use grag.Base.Values.{str}
use mathlib.Core.Path.{subst}
use grag.Graph.{NodeRecord, EdgeRecord}
use grag.Extract.{
  Cell, Items, Fields, leaf, items, dict, nil, cons, end, field, get_field, is_node_value,
  is_rel_value, is_path_value, is_true, starts_reserved, is_internal_label, label_or_type,
  has_internal, any_internal, values_internal, part_internal, each_internal, EngineResult,
  row_internal, drop_internal_rows, Found, both, walk, walk_items, walk_values, walk_part,
  walk_each, walk_row, walk_rows, Python, text_of, label_text, kind_text, node_record_from_value,
  edge_record_from_value, Ids, set_default, collect_nodes, collect_edges, extract_subgraph,
}

abbrev IsShown : Fields → Type 0
IsShown f = is_internal_label (label_or_type f) ≡ false

abbrev Shown : Found → Type 0
Shown found = All IsShown found.nodes × All IsShown found.rels

both-Shown : (a b : Found) → Shown a → Shown b → Shown (both a b)
both-Shown a b (m, r) (n, s) =
    (All-append IsShown a.nodes b.nodes m n, All-append IsShown a.rels b.rels r s)

-- The branches of a dict, with the tests as variables.
dict-Shown :
    (is_node is_rel is_path : Bool) (f : Fields) (nodes rels values : Bool) (a b c : Found)
    → (if is_node || is_rel
        then is_internal_label (label_or_type f)
        else if is_path
        then nodes || rels
        else values)
      ≡ false
    → (nodes ≡ false → Shown a)
    → (rels ≡ false → Shown b)
    → (values ≡ false → Shown c)
    → Shown (
        if is_node
        then record { nodes = f ∷ []; rels = [] }
        else if is_rel
        then record { nodes = []; rels = f ∷ [] }
        else if is_path
        then both a b
        else c)
dict-Shown true is_rel is_path f nodes rels values a b c h p q r = ((h, tt), tt)
dict-Shown false true is_path f nodes rels values a b c h p q r = (tt, (h, tt))
dict-Shown false false true f nodes rels values a b c h p q r =
    both-Shown a b (p (ground (arith, h))) (q (ground (arith, h)))
dict-Shown false false false f nodes rels values a b c h p q r = r h

mutual
  unfolding has_internal walk

  walk-Shown : (c : Cell) → has_internal c ≡ false → Shown (walk c)
  walk-Shown (leaf v) h = (tt, tt)
  walk-Shown (items xs) h = walk_items-Shown xs h
  walk-Shown (dict f) h =
      dict-Shown (is_node_value f) (is_rel_value f) (is_path_value f) f (part_internal "_NODES" f)
        (part_internal "_RELS" f) (values_internal f) (walk_part "_NODES" f) (walk_part "_RELS" f)
        (walk_values f) h (walk_part-Shown "_NODES" f) (walk_part-Shown "_RELS" f)
        (walk_values-Shown f)

  walk_items-Shown : (xs : Items) → any_internal xs ≡ false → Shown (walk_items xs)
  walk_items-Shown nil h = (tt, tt)
  walk_items-Shown (cons c xs) h =
      both-Shown (walk c) (walk_items xs) (walk-Shown c (ground (arith, h)))
        (walk_items-Shown xs (ground (arith, h)))

  walk_values-Shown : (f : Fields) → values_internal f ≡ false → Shown (walk_values f)
  walk_values-Shown end h = (tt, tt)
  walk_values-Shown (field k c f) h =
      both-Shown (walk c) (walk_values f) (walk-Shown c (ground (arith, h)))
        (walk_values-Shown f (ground (arith, h)))

  walk_part-Shown :
      (key : String) (f : Fields) → part_internal key f ≡ false → Shown (walk_part key f)
  walk_part-Shown key end h = (tt, tt)
  walk_part-Shown key (field k c f) h =
      let here = walk_each-Shown c in
      let there = walk_part-Shown key f in
      if_inv Shown (str_eq k key) (walk_each c) (walk_part key f) (λ t. here (ground (arith, h, t)))
        (λ t. there (ground (arith, h, t)))

  walk_each-Shown : (c : Cell) → each_internal c ≡ false → Shown (walk_each c)
  walk_each-Shown (leaf v) h = (tt, tt)
  walk_each-Shown (items xs) h = walk_items-Shown xs h
  walk_each-Shown (dict f) h = (tt, tt)

row-Shown : (row : List Cell) → row_internal row ≡ false → Shown (walk_row row)
unfolding walk_row
row-Shown [] h = (tt, tt)
row-Shown (c ∷ row) h =
    both-Shown (walk c) (walk_row row) (walk-Shown c (ground (arith, h)))
      (row-Shown row (ground (arith, h)))

rows-Shown :
    (rows : List (List Cell)) → Shown (walk_rows (keep (λ row. not (row_internal row)) rows))
unfolding walk_rows
rows-Shown [] = (tt, tt)
rows-Shown (row ∷ rows) =
    let rest = keep (λ r. not (row_internal r)) rows in
    if_inv (λ kept. Shown (walk_rows kept)) (not (row_internal row)) (row ∷ rest) rest
      (λ t.
        both-Shown (walk_row row) (walk_rows rest) (row-Shown row (ground (arith, t)))
          (rows-Shown rows))
      (λ _. rows-Shown rows)

-- What the dict holds, by a property of a record.
insert-All :
    {V : Type 0} (P : V → Type 0) (k : String) (v : V) (d : Dict V)
    → P v
    → All (λ p. P p.1) d
    → All (λ p. P p.1) (insert k v d)
unfolding insert
insert-All P k v [] h t = (h, tt)
insert-All P k v ((j, w) ∷ d) h (x, t) =
    if_inv (All (λ p. P p.1)) (str_eq j k) ((j, v) ∷ d) ((j, w) ∷ insert k v d) (λ _. (h, t))
      (λ _. (x, insert-All P k v d h t))

set_default-All :
    {V : Type 0} (P : V → Type 0) (k : String) (v : V) (d : Dict V)
    → P v
    → All (λ p. P p.1) d
    → All (λ p. P p.1) (set_default k v d)
set_default-All P k v d h t =
    if_inv (All (λ p. P p.1)) (has k d) d (insert k v d) (λ _. t) (λ _. insert-All P k v d h t)

values-All :
    {V : Type 0} (P : V → Type 0) (d : Dict V) → All (λ p. P p.1) d → All P (map (λ p. p.1) d)
values-All P [] h = tt
values-All P (p ∷ d) (h, t) = (h, values-All P d t)

module _ (py : Python) where
  -- `str` of what is not a text never starts with the reserved prefix.
  abbrev pub IsPlainText : Type 0
  IsPlainText = (c : Cell) → starts_reserved (py.text c) ≡ false

  text_of-shown :
      IsPlainText
      → (c : Cell) → is_internal_label (some c) ≡ false
      → starts_reserved (text_of py c) ≡ false
  text_of-shown t (leaf (str s)) h = h
  text_of-shown t (leaf v) h = t (leaf v)
  text_of-shown t (items xs) h = t (items xs)
  text_of-shown t (dict f) h = t (dict f)

  false-shown :
      IsPlainText → (c : Cell) → is_true c ≡ false → starts_reserved (text_of py c) ≡ false
  false-shown t (leaf (str s)) h = rw ((eq_iff s "").0 (ground (arith, h))) refl
  false-shown t (leaf v) h = t (leaf v)
  false-shown t (items xs) h = t (items xs)
  false-shown t (dict f) h = t (dict f)

  labels :
      (f : Fields) (c : Cell)
      → get_field "_LABEL" f ≡ some c
      → is_true c ≡ true
      → label_or_type f ≡ some c
  labels f c e g = rw (label_or_type, e, g) refl

  label_text-shown :
      IsPlainText → (f : Fields) → IsShown f → starts_reserved (label_text py f) ≡ false
  label_text-shown t f h = elim (Option-cases (get_field "_LABEL" f)) [
    | inl e ↦ rw (label_text, e) refl
    | inr (c, e) ↦
        rw (label_text, e)
          (labelled c (λ g. subst (λ o. is_internal_label o ≡ false) (labels f c e g) h))
  ]
    where
      labelled :
          (c : Cell)
          → (is_true c ≡ true → is_internal_label (some c) ≡ false)
          → starts_reserved (text_of py c) ≡ false
      labelled c h = elim (Bool-cases (is_true c)) [
        | inl e ↦ text_of-shown t c (h e)
        | inr e ↦ false-shown t c e
      ]

  kind_text-shown :
      IsPlainText → (f : Fields) → IsShown f → starts_reserved (kind_text py f) ≡ false
  kind_text-shown t f h = elim (Option-cases (label_or_type f)) [
    | inl e ↦ rw (kind_text, e) refl
    | inr (c, e) ↦
        rw (kind_text, e)
          (if_inv (λ s. starts_reserved s ≡ false) (is_true c) (text_of py c) "REL"
            (λ _. text_of-shown t c (subst (λ o. is_internal_label o ≡ false) e h)) (λ _. refl))
  ]

  nodes-shown :
      (pks : Dict String) (found : List Fields) (nodes : Dict NodeRecord) (ids : Ids py)
      → IsPlainText
      → All IsShown found
      → All (λ p. starts_reserved p.1.label ≡ false) nodes
      → All (λ p. starts_reserved p.1.label ≡ false) (collect_nodes py pks found (nodes, ids)).0
  unfolding collect_nodes node_record_from_value
  nodes-shown pks [] nodes ids t h k = k
  nodes-shown pks (f ∷ found) nodes ids t (h, hs) k =
      let rec_ = node_record_from_value py pks f in
      nodes-shown pks found (set_default rec_.id rec_ nodes) _ t hs (
        set_default-All (λ n. starts_reserved n.label ≡ false) rec_.id rec_ nodes
          (label_text-shown t f h) k)

  edges-shown :
      (ids : Ids py) (found : List Fields) (edges : Dict EdgeRecord)
      → IsPlainText
      → All IsShown found
      → All (λ p. starts_reserved p.1.kind ≡ false) edges
      → All (λ p. starts_reserved p.1.kind ≡ false) (collect_edges py ids found edges)
  unfolding collect_edges edge_record_from_value
  edges-shown ids [] edges t h k = k
  edges-shown ids (f ∷ found) edges t (h, hs) k =
      let rec_ = edge_record_from_value py ids f in
      edges-shown ids found (set_default rec_.id rec_ edges) t hs (
        set_default-All (λ e. starts_reserved e.kind ≡ false) rec_.id rec_ edges
          (kind_text-shown t f h) k)

-- Where `str` of what is not a text never starts with the reserved prefix: the subgraph of a result
-- without its internal rows has no node whose label, and no edge whose type, starts with that prefix,
-- however deep in lists, dicts and paths they were.
pub extract_subgraph-shown :
    (py : Python) (pks : Dict String) (result : EngineResult)
    → IsPlainText py
    → let g = extract_subgraph py pks (drop_internal_rows result) in
      All (λ n. starts_reserved n.label ≡ false) g.nodes
      × All (λ e. starts_reserved e.kind ≡ false) g.edges
unfolding extract_subgraph
extract_subgraph-shown py pks result t =
    let found = walk_rows (drop_internal_rows result).rows in
    let shown = rows-Shown result.rows in
    let collected = collect_nodes py pks found.nodes ([], []) in
    (
      values-All (λ n. starts_reserved n.label ≡ false) collected.0
          (nodes-shown py pks found.nodes [] [] t shown.0 tt),
      values-All (λ e. starts_reserved e.kind ≡ false) (collect_edges py collected.1 found.rels [])
          (edges-shown py collected.1 found.rels [] t shown.1 tt),
    )
