-- ===== src/Pack.antt =====
-- src/grag/core/serialize.py: `pack_context`.
pub mod Render
pub mod State
pub mod Fill
pub mod Phases
pub mod Invariant
pub mod Budget
pub mod Default
pub mod Coherence
pub mod Originals
pub mod Safety
mod Tests
use grag.Base.{
  ℕ, List, [], ◌∷◌, String, ltb, leb, none, some, str_eq, Bool, ◌&&◌, if◌then◌else◌, length, keep,
  map, Option, ◌++◌,
}
use grag.Base.Dict.{contains, insert}
use grag.Base.Values.{Python}
use grag.Graph.{NodeRecord, EdgeRecord, Subgraph}
use grag.Pack.Phases.{select}
use grag.Pack.State.{
  TextExcerpt, PackedContext, Scope, Kept, nothing, ids, public, set_props, build, cost, fits,
}

-- `subgraph.node_map().get(id)`: the last of the nodes with that id
unfoldable pub node_map : String → List NodeRecord → Option NodeRecord
node_map id [] = none
node_map id (n ∷ ns) = elim (node_map id ns) [
  | some m ↦ some m
  | none ↦ if str_eq n.id id then some n else none
]

-- The seeds that are there, each once, and then the other nodes. `seen` holds the ids so far.
unfoldable pub seed_nodes : List NodeRecord → List String → List String → List NodeRecord
seed_nodes nodes [] seen = []
seed_nodes nodes (id ∷ more) seen =
    let skip = seed_nodes nodes more seen in
    let found = seed_nodes nodes more (id ∷ seen) in
    elim (node_map id nodes) [ none ↦ skip | some n ↦ if contains seen id then skip else n ∷ found ]

unfoldable pub other_nodes : List NodeRecord → List String → List NodeRecord
other_nodes [] seen = []
other_nodes (n ∷ ns) seen =
    let skip = other_nodes ns seen in
    let found = other_nodes ns (n.id ∷ seen) in if contains seen n.id then skip else n ∷ found

unfoldable pub ordered_nodes : Subgraph → List String → List NodeRecord
unfolding seed_nodes other_nodes node_map
ordered_nodes g seed_ids =
    let seeds = seed_nodes g.nodes seed_ids [] in seeds ++ other_nodes g.nodes (ids seeds)

-- The first lines of `pack_context`: vectors and nulls are dropped, and so is an edge with an
-- endpoint outside the subgraph.
unfoldable pub scope_of :
    Python → Subgraph → ℕ → List String → (PackedContext → ℕ) → List TextExcerpt → Scope
unfolding ordered_nodes
scope_of py g budget seed_ids measure excerpts =
    let ns =
      map (λ (n : NodeRecord). set_props n (public n.properties)) (ordered_nodes g seed_ids) in
    record {
      python = py;
      nodes = ns;
      edges =
          map (λ (e : EdgeRecord). record e { properties = public e.properties })
            (keep (λ e. contains (ids ns) e.source && contains (ids ns) e.target) g.edges);
      given_edges = length g.edges;
      token_budget = budget;
      seed_ids = seed_ids;
      measure = measure;
      excerpts = excerpts;
    }

abbrev pub everything : Scope → Kept
everything s = record { nodes = s.nodes; edges = s.edges; excerpts = [] }

-- What `pack_context` builds its response from.
unfoldable pub chosen : Scope → Kept
chosen s =
    if fits s (everything s)
    then everything s
    else if leb s.token_budget (cost s nothing)
    then nothing
    else select s

unfoldable pub pack_context :
    Python → Subgraph → ℕ → List String → (PackedContext → ℕ) → List TextExcerpt → PackedContext
pack_context py g budget seed_ids measure excerpts =
    let s = scope_of py g budget seed_ids measure excerpts in build s (chosen s)
