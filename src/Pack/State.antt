-- ===== src/Pack/State.antt =====
-- `pack_context`: its local variables, the response that it builds, and the changes that it makes
-- to what is kept.
use Prim.Native.Nat.{ℕ}
use grag.Base.{
  ℕ, zero, suc, String, ◌<>◌, List, [], ◌∷◌, ◌++◌, map, ◌+◌, ◌-◌, ltb, leb, none, some, Option,
  Bool, true, not, if◌then◌else◌, ◌&&◌, ◌||◌, length, foldl,
}
use grag.Base.Dict.{Dict, contains, lookup, insert, filter_items}
use grag.Base.Values.{Value, Props, is_null, Python}
use grag.Graph.{vector_props, NodeRecord, EdgeRecord, Subgraph}
use grag.Pack.Render.{estimate_tokens, join, render_value, node_line, edge_line}

-- An integer: a natural number, or one below 0.
pub data ℤ : Type 0 where
  pos : ℕ → ℤ
  negsuc : ℕ → ℤ

abbrev difference : ℕ → ℕ → ℤ
difference m n = if leb n m then pos (m - n) else negsuc (n - m - 1)

-- `bool(n)`
abbrev is_nonzero : ℤ → Bool
is_nonzero (pos n) = ltb 0 n
is_nonzero (negsuc n) = true

-- `TextExcerpt` of core/types.py
pub record TextExcerpt : Type 0 where
  pub node_id : String
  pub property : String
  pub text : String
  pub offset : ℕ
  pub end : ℕ
  pub total_chars : ℕ
  pub sha256 : String

-- `PackedContext` of core/types.py
pub record PackedContext : Type 0 where
  pub text : String
  pub token_estimate : ℕ
  pub included_node_ids : List String
  pub truncated : Bool
  pub omitted_nodes : ℕ
  pub omitted_edges : ℕ
  pub omitted_properties : ℤ
  pub subgraph : Subgraph
  pub text_excerpts : List TextExcerpt

-- What the closures of `pack_context` see: its arguments, `nodes` and `edges`, and the number of
-- edges of the subgraph that it was given.
pub record Scope : Type 0 where
  pub python : Python
  pub nodes : List NodeRecord
  pub edges : List EdgeRecord
  pub given_edges : ℕ
  pub token_budget : ℕ
  pub seed_ids : List String
  pub measure : PackedContext → ℕ
  pub excerpts : List TextExcerpt

-- `kept_nodes`, `kept_edges` and `kept_excerpts`. The records of the first two are changed in
-- place; a record is named by its position, which never changes. The sets `kept_ids` and
-- `edge_ids` hold the ids of the kept records wherever they are read.
pub record Kept : Type 0 where
  pub nodes : List NodeRecord
  pub edges : List EdgeRecord
  pub excerpts : List TextExcerpt

abbrev pub nothing : Kept
nothing = record { nodes = []; edges = []; excerpts = [] }

abbrev pub ids : List NodeRecord → List String
ids = map (λ n. n.id)

abbrev pub edge_ids : List EdgeRecord → List String
edge_ids = map (λ e. e.id)

-- `public`
abbrev pub public : Props → Props
public = filter_items (λ k v. not (contains vector_props k) && not (is_null v))

abbrev pub set_props : NodeRecord → Props → NodeRecord
set_props n props = record n { properties = props }

abbrev pub bare : EdgeRecord → EdgeRecord
bare e = record e { properties = [] }

-- `{n.id: n.properties for n in nodes}`, and the same of the edges
unfoldable pub originals : List NodeRecord → Dict Props
originals = foldl (λ d n. insert n.id n.properties d) []

unfoldable pub original_edges : List EdgeRecord → Dict Props
original_edges = foldl (λ d e. insert e.id e.properties d) []

-- Every id that is looked up is there: each kept record stands for one of the scope.
unfoldable pub props_of : Dict Props → String → Props
props_of d id = elim (lookup id d) [ none ↦ [] | some props ↦ props ]

unfoldable pub total_size : Dict Props → List String → ℕ
unfolding props_of
total_size d [] = 0
total_size d (id ∷ more) = length (props_of d id) + total_size d more

unfoldable pub node_sizes : List NodeRecord → ℕ
node_sizes [] = 0
node_sizes (n ∷ ns) = length n.properties + node_sizes ns

unfoldable pub edge_sizes : List EdgeRecord → ℕ
edge_sizes [] = 0
edge_sizes (e ∷ es) = length e.properties + edge_sizes es

unfoldable pub excerpt_line : Python → TextExcerpt → String
excerpt_line py e =
    e.node_id
    <> " [excerpt "
    <> e.property
    <> " chars "
    <> py.format (Value.int e.offset)
    <> ":"
    <> py.format (Value.int e.end)
    <> " of "
    <> py.format (Value.int e.total_chars)
    <> "] "
    <> render_value py (Value.str e.text)

-- `build`, but for the charges to the work budget: a run that exhausts that budget ends with an
-- error in place of a response. Where two records of the scope have an id, a kept one may have more
-- properties than the other, and the number of omitted properties is then below 0.
unfoldable pub build : Scope → Kept → PackedContext
build s k =
    let body = join "\n" (
      map (node_line s.python) k.nodes
      ++ (map (excerpt_line s.python) k.excerpts ++ map (edge_line s.python) k.edges)) in
    let lost_nodes = length s.nodes - length k.nodes in
    let lost_edges = s.given_edges - length k.edges in
    let lost_props =
      difference
        (total_size (originals s.nodes) (ids k.nodes)
          + total_size (original_edges s.edges) (edge_ids k.edges))
        (node_sizes k.nodes + edge_sizes k.edges) in
    record {
      text = body;
      token_estimate = estimate_tokens body;
      included_node_ids = ids k.nodes;
      truncated = ltb 0 lost_nodes || ltb 0 lost_edges || is_nonzero lost_props;
      omitted_nodes = lost_nodes;
      omitted_edges = lost_edges;
      omitted_properties = lost_props;
      subgraph = record { nodes = k.nodes; edges = k.edges };
      text_excerpts = k.excerpts;
    }

-- `cost(build(…))`
abbrev pub cost : Scope → Kept → ℕ
cost s k = s.measure (build s k)

-- `cost(build(…)) <= token_budget`
abbrev pub fits : Scope → Kept → Bool
fits s k = leb (cost s k) s.token_budget

abbrev pub push_node : NodeRecord → Kept → Kept
push_node n k = record k { nodes = k.nodes ++ n ∷ [] }

abbrev pub push_edge : EdgeRecord → Kept → Kept
push_edge e k = record k { edges = k.edges ++ e ∷ [] }

abbrev pub push_excerpt : TextExcerpt → Kept → Kept
push_excerpt x k = record k { excerpts = k.excerpts ++ x ∷ [] }

-- A change in place of the record at a position.
unfoldable pub modify {ℓ} : {A : Type ℓ} → ℕ → (A → A) → List A → List A
modify i f [] = []
modify zero f (x ∷ xs) = f x ∷ xs
modify (suc i) f (x ∷ xs) = x ∷ modify i f xs

unfoldable pub get_elem? {ℓ} : {A : Type ℓ} → List A → ℕ → Option A
get_elem? [] i = none
get_elem? (x ∷ xs) zero = some x
get_elem? (x ∷ xs) (suc i) = get_elem? xs i

abbrev pub modify_node : ℕ → (NodeRecord → NodeRecord) → Kept → Kept
modify_node i f k = record k { nodes = modify i f k.nodes }

abbrev pub modify_edge : ℕ → (EdgeRecord → EdgeRecord) → Kept → Kept
modify_edge i f k = record k { edges = modify i f k.edges }

abbrev pub insert_node_prop : String → Value → NodeRecord → NodeRecord
insert_node_prop key value n = record n { properties = insert key value n.properties }

abbrev pub insert_edge_prop : String → Value → EdgeRecord → EdgeRecord
insert_edge_prop key value e = record e { properties = insert key value e.properties }
