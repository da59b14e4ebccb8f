-- ===== src/Extract/Inside/Walk.antt =====
-- `walk` finds the nodes and relationships that are in a result, and no others.
use grag.Base.{
  String, str_eq, List, [], ◌∷◌, ◌++◌, some, true, false, All, All-append, All-map, ap, sym, ◌∙◌,
  ◌≡◌, refl, inl, inr, Bool-cases, arith, some_inj, none-ne-some,
}
use mathlib.Core.Path.{subst}
use grag.Extract.{
  Cell, Items, Fields, leaf, items, dict, nil, cons, end, field, get_field, is_node_value,
  is_rel_value, is_path_value, Found, nothing, both, walk, walk_items, walk_values, walk_part,
  walk_each, walk_row, walk_rows,
}
use grag.Extract.Inside.{
  Kind, node_kind, rel_kind, is_kind, IsIn, here, in_list, in_dict, in_nodes, in_rels, IsInItems,
  this_item, later_item, IsInFields, this_field, later_field, IsInRow, this_cell, later_cell,
  IsInRows, this_row, later_row,
}

abbrev pub pick : Kind → Found → List Fields
pick node_kind found = found.nodes
pick rel_kind found = found.rels

-- Each that was found
abbrev pub Each : (k : Kind) → (Fields → Type 0) → Found → Type 0
Each k P found = All P (pick k found)

All-of_append : (P : Fields → Type 0) (xs ys : List Fields) → All P (xs ++ ys) → All P xs × All P ys
All-of_append P [] ys h = (tt, h)
All-of_append P (x ∷ xs) ys (a, h) = let (b, c) = All-of_append P xs ys h in ((a, b), c)

Each-of_both :
    (k : Kind) (P : Fields → Type 0) (a b : Found) → Each k P (both a b) → Each k P a × Each k P b
Each-of_both node_kind P a b h = All-of_append P a.nodes b.nodes h
Each-of_both rel_kind P a b h = All-of_append P a.rels b.rels h

Each-both :
    (k : Kind) (P : Fields → Type 0) (a b : Found) → Each k P a → Each k P b → Each k P (both a b)
Each-both node_kind P a b h l = All-append P a.nodes b.nodes h l
Each-both rel_kind P a b h l = All-append P a.rels b.rels h l

Each-nothing : (k : Kind) (P : Fields → Type 0) → Each k P nothing
Each-nothing node_kind P = tt
Each-nothing rel_kind P = tt

-- A relationship has a source, and a node has none.
rel-node : (f : Fields) → is_rel_value f ≡ true → is_node_value f ≡ false
rel-node f h = ground (arith, h)

walk-kind :
    (k : Kind) (P : Fields → Type 0) (f : Fields)
    → is_kind k f ≡ true
    → Each k P (walk (dict f)) ≡ (P f × Unit)
unfolding walk
walk-kind node_kind P f h = rw h refl
walk-kind rel_kind P f h = rw (rel-node f h, h) refl

walk-plain :
    (d : Fields)
    → is_node_value d ≡ false
    → is_rel_value d ≡ false
    → is_path_value d ≡ false
    → walk (dict d) ≡ walk_values d
unfolding walk
walk-plain d n r p = rw (n, r, p) refl

walk-path :
    (d : Fields)
    → is_node_value d ≡ false
    → is_rel_value d ≡ false
    → is_path_value d ≡ true
    → walk (dict d) ≡ both (walk_part "_NODES" d) (walk_part "_RELS" d)
unfolding walk
walk-path d n r p = rw (n, r, p) refl

walk_part-items :
    (key : String) (d : Fields) (xs : Items)
    → get_field key d ≡ some (items xs)
    → walk_part key d ≡ walk_items xs
unfolding walk get_field
walk_part-items key end xs h = absurd (none-ne-some h)
walk_part-items key (field j c d) xs h = elim (Bool-cases (str_eq j key)) [
  | inl e ↦ rw (e, some_inj (rw e at h)) refl
  | inr e ↦ rw e (walk_part-items key d xs (rw e at h))
]

Each-map :
    (k : Kind) (P Q : Fields → Type 0)
    → ((f : Fields) → P f → Q f)
    → (found : Found) → Each k P found
    → Each k Q found
Each-map k P Q g found = All-map P Q g (pick k found)

-- In an item of a part of a path
abbrev IsInPart : Kind → String → Fields → Fields → Type 0
IsInPart k key d f = (xs : Items) × (get_field key d ≡ some (items xs)) × IsInItems k f xs

part-this :
    (key j : String) (c : Cell) (d : Fields)
    → str_eq j key ≡ true
    → (get_field key (field j c d) ≡ some c) × (walk_part key (field j c d) ≡ walk_each c)
unfolding walk get_field
part-this key j c d e = (rw e refl, rw e refl)

part-later :
    (key j : String) (c : Cell) (d : Fields)
    → str_eq j key ≡ false
    → (get_field key (field j c d) ≡ get_field key d)
      × (walk_part key (field j c d) ≡ walk_part key d)
unfolding walk get_field
part-later key j c d e = (rw e refl, rw e refl)

found-field :
    (k : Kind) (key j : String) (c : Cell) (d : Fields)
    → Each k (λ f. (xs : Items) × (c ≡ items xs) × IsInItems k f xs) (walk_each c)
    → Each k (IsInPart k key d) (walk_part key d)
    → Each k (IsInPart k key (field j c d)) (walk_part key (field j c d))
found-field k key j c d h l = elim (Bool-cases (str_eq j key)) [
  | inl e ↦
      subst (Each k _) (sym (part-this key j c d e).1) (
        Each-map k _ _ (λ f i. (i.0, (part-this key j c d e).0 ∙ ap some i.1, i.2)) (walk_each c) h)
  | inr e ↦
      subst (Each k _) (sym (part-later key j c d e).1)
        (Each-map k _ _ (λ f i. (i.0, (part-later key j c d e).0 ∙ i.1, i.2)) (walk_part key d) l)
]

found-kind :
    (k : Kind) (d : Fields) → is_kind k d ≡ true → Each k (λ f. IsIn k f (dict d)) (walk (dict d))
found-kind k d e =
    subst (λ (X : Type 0). X) (sym (walk-kind k (λ f. IsIn k f (dict d)) d e)) (here e, tt)

found-node :
    (k : Kind) (d : Fields)
    → is_node_value d ≡ true
    → Each k (λ f. IsIn k f (dict d)) (walk (dict d))
unfolding walk
found-node node_kind d n = found-kind node_kind d n
found-node rel_kind d n = rw n tt

found-rel :
    (k : Kind) (d : Fields)
    → is_rel_value d ≡ true
    → Each k (λ f. IsIn k f (dict d)) (walk (dict d))
unfolding walk
found-rel rel_kind d r = found-kind rel_kind d r
found-rel node_kind d r = rw (rel-node d r, r) tt

found-dict :
    (k : Kind) (d : Fields)
    → Each k (λ f. IsInFields k f d) (walk_values d)
    → Each k (IsInPart k "_NODES" d) (walk_part "_NODES" d)
    → Each k (IsInPart k "_RELS" d) (walk_part "_RELS" d)
    → Each k (λ f. IsIn k f (dict d)) (walk (dict d))
found-dict k d values nodes rels = elim (Bool-cases (is_node_value d)) [
  | inl n ↦ found-node k d n
  | inr n ↦ elim (Bool-cases (is_rel_value d)) [
    | inl r ↦ found-rel k d r
    | inr r ↦ elim (Bool-cases (is_path_value d)) [
      | inl p ↦ subst (Each k _) (sym (walk-path d n r p)) (
          Each-both k _ (walk_part "_NODES" d) (walk_part "_RELS" d)
            (Each-map k _ _ (λ f i. in_nodes n r p i.1 i.2) (walk_part "_NODES" d) nodes)
            (Each-map k _ _ (λ f i. in_rels n r p i.1 i.2) (walk_part "_RELS" d) rels))
      | inr p ↦
          subst (Each k _) (sym (walk-plain d n r p))
            (Each-map k _ _ (λ f i. in_dict n r p i) (walk_values d) values)
    ]
  ]
]

-- What holds of each that was found holds of each that is there.
module _ (k : Kind) (P : Fields → Type 0) where
  mutual
    unfolding walk

    holds-cell : {f : Fields} {c : Cell} → IsIn k f c → Each k P (walk c) → P f
    holds-cell {f} (here e) h = (subst (λ (X : Type 0). X) (walk-kind k P f e) h).0
    holds-cell (in_list i) h = holds-items i h
    holds-cell (in_dict {d} n r p i) h = holds-fields i (subst (Each k P) (walk-plain d n r p) h)
    holds-cell (in_nodes {d} {xs} n r p e i) h =
        let parts = Each-of_both k P _ _ (subst (Each k P) (walk-path d n r p) h) in
        holds-items i (subst (Each k P) (walk_part-items "_NODES" d xs e) parts.0)
    holds-cell (in_rels {d} {xs} n r p e i) h =
        let parts = Each-of_both k P _ _ (subst (Each k P) (walk-path d n r p) h) in
        holds-items i (subst (Each k P) (walk_part-items "_RELS" d xs e) parts.1)

    holds-items : {f : Fields} {xs : Items} → IsInItems k f xs → Each k P (walk_items xs) → P f
    holds-items (this_item i) h = holds-cell i (Each-of_both k P _ _ h).0
    holds-items (later_item i) h = holds-items i (Each-of_both k P _ _ h).1

    holds-fields : {f d : Fields} → IsInFields k f d → Each k P (walk_values d) → P f
    holds-fields (this_field i) h = holds-cell i (Each-of_both k P _ _ h).0
    holds-fields (later_field i) h = holds-fields i (Each-of_both k P _ _ h).1

  holds-row : {f : Fields} {row : List Cell} → IsInRow k f row → Each k P (walk_row row) → P f
  unfolding walk_row
  holds-row (this_cell i) h = holds-cell i (Each-of_both k P _ _ h).0
  holds-row (later_cell i) h = holds-row i (Each-of_both k P _ _ h).1

  pub holds-rows :
      {f : Fields} {rows : List (List Cell)} → IsInRows k f rows → Each k P (walk_rows rows) → P f
  unfolding walk_rows
  holds-rows (this_row i) h = holds-row i (Each-of_both k P _ _ h).0
  holds-rows (later_row i) h = holds-rows i (Each-of_both k P _ _ h).1

-- Each that was found is there.
module _ (k : Kind) where
  mutual
    unfolding walk

    found-cell : (c : Cell) → Each k (λ f. IsIn k f c) (walk c)
    found-cell (leaf v) = Each-nothing k _
    found-cell (items xs) = Each-map k _ _ (λ f i. in_list i) (walk_items xs) (found-items xs)
    found-cell (dict d) =
        found-dict k d (found-fields d) (found-part "_NODES" d) (found-part "_RELS" d)

    found-items : (xs : Items) → Each k (λ f. IsInItems k f xs) (walk_items xs)
    found-items nil = Each-nothing k _
    found-items (cons c xs) =
        Each-both k _ (walk c) (walk_items xs)
          (Each-map k _ _ (λ f i. this_item i) (walk c) (found-cell c))
          (Each-map k _ _ (λ f i. later_item i) (walk_items xs) (found-items xs))

    found-fields : (d : Fields) → Each k (λ f. IsInFields k f d) (walk_values d)
    found-fields end = Each-nothing k _
    found-fields (field j c d) =
        Each-both k _ (walk c) (walk_values d)
          (Each-map k _ _ (λ f i. this_field i) (walk c) (found-cell c))
          (Each-map k _ _ (λ f i. later_field i) (walk_values d) (found-fields d))

    found-part : (key : String) (d : Fields) → Each k (IsInPart k key d) (walk_part key d)
    found-part key end = Each-nothing k _
    found-part key (field j c d) = found-field k key j c d (found-list c) (found-part key d)

    found-list :
        (c : Cell) → Each k (λ f. (xs : Items) × (c ≡ items xs) × IsInItems k f xs) (walk_each c)
    found-list (leaf v) = Each-nothing k _
    found-list (items xs) = Each-map k _ _ (λ f i. (xs, refl, i)) (walk_items xs) (found-items xs)
    found-list (dict d) = Each-nothing k _

  found-row : (row : List Cell) → Each k (λ f. IsInRow k f row) (walk_row row)
  unfolding walk_row
  found-row [] = Each-nothing k _
  found-row (c ∷ row) =
      Each-both k _ (walk c) (walk_row row)
        (Each-map k _ _ (λ f i. this_cell i) (walk c) (found-cell c))
        (Each-map k _ _ (λ f i. later_cell i) (walk_row row) (found-row row))

  pub found-rows : (rows : List (List Cell)) → Each k (λ f. IsInRows k f rows) (walk_rows rows)
  unfolding walk_rows
  found-rows [] = Each-nothing k _
  found-rows (row ∷ rows) =
      Each-both k _ (walk_row row) (walk_rows rows)
        (Each-map k _ _ (λ f i. this_row i) (walk_row row) (found-row row))
        (Each-map k _ _ (λ f i. later_row i) (walk_rows rows) (found-rows rows))
