-- ===== src/Pack/Phases.antt =====
-- `pack_context`: the phases that choose what is kept, in the order of the source.
use Prim.Native.String
use grag.Base.{
  ℕ, suc, String, List, [], ◌∷◌, ◌++◌, ◌+◌, ◌-◌, ◌/◌, leb, none, some, Option, str_eq, Bool, true,
  false, not, ◌&&◌, ◌||◌, if◌then◌else◌, length, keep, foldl, is_empty,
}
use grag.Base.Dict.{contains, filter_items, has, update, insert}
use grag.Base.Values.{Value, Props, get, is_positive_int}
use grag.Graph.{NodeRecord, EdgeRecord}
use grag.Pack.Render.{provenance_source, safety_props, citation_props}
use grag.Pack.State.{
  Scope, Kept, nothing, ids, edge_ids, set_props, bare, cost, fits, push_node, push_edge,
  modify_node,
}
use grag.Pack.Fill.{Ref, node, edge, original_props, fill, fill_all}

abbrev pub prose_props : List String
prose_props =
    "summary" ∷ "body" ∷ "text" ∷ "rationale" ∷ "docstring" ∷ "description" ∷ "question" ∷ []

unfoldable pub is_text : Value → Bool
is_text (Value.str t) = true
is_text _ = false

-- The source of a code seed: a text that is not empty.
unfoldable pub is_cited : Value → Bool
is_cited (Value.str t) = not (str_eq t "")
is_cited _ = false

unfoldable pub is_first : List NodeRecord → String → Bool
is_first [] id = false
is_first (n ∷ ns) id = str_eq n.id id

-- `{k: v for k, v in props.items() if k in _CITATION_PROPS}`
unfoldable pub citation : Props → Props
citation = filter_items (λ k v. contains citation_props k)

-- A text of at most 512 characters.
unfoldable pub short_text : Value → Bool
short_text (Value.str t) = leb (String.count t) 512
short_text _ = false

-- `{e.source, e.target} <= set(known)`
abbrev pub joins : EdgeRecord → List String → Bool
joins e known = contains known e.source && contains known e.target

-- `_SAFETY_PROPS.intersection(properties)`
unfoldable pub has_safety : List String → Props → Bool
has_safety [] props = false
has_safety (q ∷ qs) props = has q props || has_safety qs props

unfoldable pub find_node : String → List NodeRecord → Option NodeRecord
find_node id [] = none
find_node id (n ∷ ns) = if str_eq n.id id then some n else find_node id ns

unfoldable pub positions {ℓ} : {A : Type ℓ} → ℕ → List A → List ℕ
positions i [] = []
positions i (x ∷ xs) = i ∷ positions (suc i) xs

unfoldable pub first_link : List EdgeRecord → List EdgeRecord
first_link [] = []
first_link (e ∷ es) = bare e ∷ []

unfoldable pub edge_refs : ℕ → List EdgeRecord → List Ref
edge_refs i [] = []
edge_refs i (e ∷ es) = edge i ∷ edge_refs (suc i) es

module _ (s : Scope) where
  unfoldable pub skips_docstring : NodeRecord → Props → String → Bool
  skips_docstring n props key =
      str_eq key "docstring"
      && not (is_first s.nodes n.id)
      && contains s.seed_ids n.id
      && is_cited (get props provenance_source)
      && is_positive_int (get props "line_start")

  -- The loop over the prose properties, which takes the first that is short.
  unfoldable pub add_prose : NodeRecord → Props → List String → Props
  add_prose n props [] = props
  add_prose n props (key ∷ more) =
      let rest = add_prose n props more in
      if skips_docstring n props key
      then rest
      else if short_text (get n.properties key)
      then insert key (get n.properties key) props
      else rest

  unfoldable pub skeleton : NodeRecord → NodeRecord
  skeleton n = set_props n (add_prose n (citation n.properties) prose_props)

  -- `adjacent.get(id, [])`
  unfoldable pub adjacent : String → List EdgeRecord
  adjacent id = keep (λ e. str_eq e.source id || str_eq e.target id) s.edges

  abbrev pub topology_budget : ℕ
  topology_budget = cost s nothing + (s.token_budget - cost s nothing) / 2

  unfoldable pub link : Kept → EdgeRecord → Kept
  link k e =
      if contains (edge_ids k.edges) e.id || not (joins e (ids k.nodes))
      then k
      else if leb (cost s (push_edge (bare e) k)) topology_budget
      then push_edge (bare e) k
      else k

  unfoldable pub admit : Kept → NodeRecord → Kept
  admit k n =
      let limit = if is_empty k.nodes then s.token_budget else topology_budget in
      if leb (cost s (push_node (skeleton n) k)) limit
      then foldl link (push_node (skeleton n) k) (adjacent n.id)
      else if not (is_empty k.nodes) || has_safety safety_props n.properties
      then k
      else if fits s (push_node (set_props n []) k)
      then foldl link (push_node (set_props n []) k) (adjacent n.id)
      else k

  unfoldable pub topology : Kept
  topology = foldl admit nothing s.nodes

  -- The endpoint's skeleton, where the endpoint is not kept yet. An edge of the scope has its
  -- endpoints among the scope's nodes.
  unfoldable pub neighbor : List String → String → List NodeRecord
  neighbor known id =
      if contains known id
      then []
      else elim (find_node id s.nodes) [ none ↦ [] | some n ↦ skeleton n ∷ [] ]

  -- `missing` holds an endpoint once.
  unfoldable pub neighbors : List String → EdgeRecord → List NodeRecord
  neighbors known e =
      neighbor known e.source ++ (if str_eq e.source e.target then [] else neighbor known e.target)

  abbrev pub with_pair : Kept → EdgeRecord → Kept
  with_pair k e = record k { nodes = k.nodes ++ neighbors (ids k.nodes) e; edges = bare e ∷ [] }

  unfoldable pub first_pair : Kept → List EdgeRecord → Kept
  first_pair k [] = k
  first_pair k (e ∷ es) =
      let later = first_pair k es in if fits s (with_pair k e) then with_pair k e else later

  unfoldable pub all_adjacent : List NodeRecord → List EdgeRecord
  all_adjacent [] = []
  all_adjacent (n ∷ ns) = adjacent n.id ++ all_adjacent ns

  -- Where no edge was kept, the first connecting pair that fits.
  unfoldable pub connect_first : Kept → Kept
  connect_first k = if is_empty k.edges then first_pair k (all_adjacent k.nodes) else k

  abbrev pub cited : NodeRecord → NodeRecord
  cited n = set_props n (update n.properties (citation (original_props s n.id)))

  -- The citations, node by node; a node whose citation does not fit loses its properties.
  unfoldable pub cite_at : Kept → ℕ → Kept
  cite_at k i =
      if fits s (modify_node i cited k)
      then modify_node i cited k
      else modify_node i (λ n. set_props n []) k

  unfoldable pub cite : Kept → Kept
  cite k = foldl cite_at k (positions 0 k.nodes)

  unfoldable pub connect_edge : Kept → EdgeRecord → Kept
  connect_edge k e =
      if contains (edge_ids k.edges) e.id || not (joins e (ids k.nodes))
      then k
      else if fits s (push_edge (bare e) k)
      then fill s false (edge (length k.edges) ∷ []) (push_edge (bare e) k)
      else k

  unfoldable pub connect : Kept → Kept
  connect k = foldl connect_edge k s.edges

  unfoldable pub links : Kept → NodeRecord → List EdgeRecord
  links k n = keep (λ e. joins e (n.id ∷ ids k.nodes)) (adjacent n.id)

  unfoldable pub is_stray : Kept → NodeRecord → Bool
  is_stray k n =
      not (is_empty s.seed_ids)
      && not (contains s.seed_ids n.id)
      && not (is_empty (adjacent n.id))
      && is_empty (links k n)

  abbrev pub with_evidence : Kept → NodeRecord → Kept
  with_evidence k n = record k {
    nodes = k.nodes ++ skeleton n ∷ [];
    edges = k.edges ++ first_link (links k n);
  }

  -- A further node with the edge that connects it.
  unfoldable pub extend : Kept → NodeRecord → Kept
  extend k n =
      if contains (ids k.nodes) n.id || is_stray k n
      then k
      else if fits s (with_evidence k n)
      then connect (
          fill s false (node (length k.nodes) ∷ edge_refs (length k.edges) (first_link (links k n)))
            (with_evidence k n))
      else k

  unfoldable pub spend : Kept → Kept
  spend k = foldl extend k s.nodes

  -- What is kept under pressure.
  unfoldable pub select : Kept
  select = fill_all s true (spend (connect (fill_all s false (cite (connect_first topology)))))
