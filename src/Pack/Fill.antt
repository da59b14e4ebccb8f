-- ===== src/Pack/Fill.antt =====
-- `fill`: one property after another, in the order of their importance, where it fits.
use grag.Base.{
  ℕ, suc, String, List, [], ◌∷◌, ◌++◌, leb, none, some, str_eq, Bool, true, false, not, ◌&&◌, ◌||◌,
  if◌then◌else◌, keep, foldl,
}
use grag.Base.Dict.{contains, has}
use grag.Base.Values.{Value, Props, get, truthy}
use grag.Graph.{NodeRecord, EdgeRecord}
use grag.Pack.Render.{provenance_source, safety_props, hidden_props, citation_props}
use grag.Pack.State.{
  TextExcerpt, Scope, Kept, originals, original_edges, props_of, fits, push_excerpt, get_elem?,
  modify_node, modify_edge, insert_node_prop, insert_edge_prop,
}
use text.Mathlib.Text.{starts_with}

-- A kept record, by its position.
pub data Ref : Type 0 where
  node edge : ℕ → Ref

pub record Field : Type 0 where
  pub ref : Ref
  pub key : String
  pub value : Value

-- The position of a key in the tuple that `priority` enumerates; the default of `priority.get` is
-- 10.
unfoldable pub rank : ℕ → List String → String → ℕ
rank i [] key = 10
rank i (k ∷ ks) key = if str_eq k key then i else rank (suc i) ks key

abbrev pub field_order : List String
field_order =
    "summary" ∷ "release_status" ∷ "released_in" ∷ "release" ∷ "priority" ∷ "next_step"
    ∷ "acceptance" ∷ "question" ∷ "body" ∷ "text" ∷ "rationale" ∷ "docstring" ∷ "description"
    ∷ "title" ∷ "name" ∷ "status" ∷ "signature" ∷ []

unfoldable pub priority : String → ℕ
priority key = rank 0 field_order key

abbrev pub secondary : List String
secondary =
    "id" ∷ "path" ∷ "language" ∷ "is_method" ∷ "meta" ∷ "heading_path" ∷ "ingested_at"
    ∷ "git_commit" ∷ "git_branch" ∷ []

-- `sorted(items, key=measure)`, which is stable
unfoldable pub insert_by {ℓ} : {A : Type ℓ} → (A → ℕ) → A → List A → List A
insert_by measure x [] = x ∷ []
insert_by measure x (y ∷ ys) =
    if leb (measure x) (measure y) then x ∷ y ∷ ys else y ∷ insert_by measure x ys

unfoldable pub sort_by {ℓ} : {A : Type ℓ} → (A → ℕ) → List A → List A
sort_by measure [] = []
sort_by measure (x ∷ xs) = insert_by measure x (sort_by measure xs)

unfoldable pub is_metadata : String → Bool
is_metadata key = starts_with key "_" || contains secondary key

unfoldable pub xor_not : Bool → Bool → Bool
xor_not true b = b
xor_not false b = not b

-- The items of a record's original properties that a pass looks at.
unfoldable pub wanted : Bool → Ref → Props → List Field
wanted metadata ref [] = []
wanted metadata ref ((k, v) ∷ props) =
    let rest = wanted metadata ref props in
    if not (contains hidden_props k) && xor_not (is_metadata k) metadata
    then record { ref = ref; key = k; value = v } ∷ rest
    else rest

-- `any(k not in record.properties for k in _SAFETY_PROPS.intersection(originals[record.id]))`
unfoldable pub lacks_safety : List String → Props → Props → Bool
lacks_safety [] original props = false
lacks_safety (q ∷ qs) original props =
    (has q original && not (has q props)) || lacks_safety qs original props

unfoldable pub refs_from {ℓ} : {A : Type ℓ} → (ℕ → Ref) → ℕ → List A → List Ref
refs_from mk i [] = []
refs_from mk i (x ∷ xs) = mk i ∷ refs_from mk (suc i) xs

module _ (s : Scope) where
  abbrev pub original_props : String → Props
  original_props id = props_of (originals s.nodes) id

  unfoldable pub fields_of : Kept → Bool → Ref → List Field
  fields_of k metadata (node i) = elim (get_elem? k.nodes i) [
    | none ↦ []
    | some n ↦ wanted metadata (node i) (original_props n.id)
  ]
  fields_of k metadata (edge i) = elim (get_elem? k.edges i) [
    | none ↦ []
    | some e ↦ wanted metadata (edge i) (props_of (original_edges s.edges) e.id)
  ]

  unfoldable pub fields : Kept → Bool → List Ref → List Field
  fields k metadata [] = []
  fields k metadata (r ∷ refs) = fields_of k metadata r ++ fields k metadata refs

  -- The excerpts offered for a property: the first that fits.
  unfoldable pub offer : List TextExcerpt → Kept → Kept
  offer [] k = k
  offer (x ∷ xs) k =
      let more = offer xs k in if fits s (push_excerpt x k) then push_excerpt x k else more

  unfoldable pub excerpts_for : String → String → List TextExcerpt
  excerpts_for id key = keep (λ x. str_eq x.node_id id && str_eq x.property key) s.excerpts

  unfoldable pub fill_node : ℕ → String → Value → NodeRecord → Kept → Kept
  fill_node i key value n k =
      if lacks_safety safety_props (original_props n.id) n.properties
        || has key n.properties
        || contains citation_props key
      then k
      else if fits s (modify_node i (insert_node_prop key value) k)
      then modify_node i (insert_node_prop key value) k
      else if truthy (get (original_props n.id) provenance_source)
          && not (truthy (get n.properties provenance_source))
      then k
      else offer (excerpts_for n.id key) k

  unfoldable pub fill_edge : ℕ → String → Value → EdgeRecord → Kept → Kept
  fill_edge i key value e k =
      if has key e.properties
      then k
      else if fits s (modify_edge i (insert_edge_prop key value) k)
      then modify_edge i (insert_edge_prop key value) k
      else k

  -- One round of the loop. Where the property does not fit it is deleted again.
  unfoldable pub fill_ref : Ref → String → Value → Kept → Kept
  fill_ref (node i) key value k = elim (get_elem? k.nodes i) [
    | none ↦ k
    | some n ↦ fill_node i key value n k
  ]
  fill_ref (edge i) key value k = elim (get_elem? k.edges i) [
    | none ↦ k
    | some e ↦ fill_edge i key value e k
  ]

  unfoldable pub fill_field : Kept → Field → Kept
  fill_field k f = fill_ref f.ref f.key f.value k

  unfoldable pub fill : Bool → List Ref → Kept → Kept
  fill metadata refs k = foldl fill_field k (sort_by (λ f. priority f.key) (fields k metadata refs))

  -- `fill([*kept_nodes, *kept_edges], metadata=…)`
  unfoldable pub fill_all : Bool → Kept → Kept
  fill_all metadata k = fill metadata (refs_from node 0 k.nodes ++ refs_from edge 0 k.edges) k
