-- ===== src/Pack/Originals.antt =====
-- The nodes of the scope have distinct ids, so `originals` gives each its own properties.
use grag.Base.{
  ℕ, String, List, [], ◌∷◌, ◌++◌, ◌≡◌, refl, ◌∙◌, sym, some, true, false, map, foldl, All, All-map,
  arith, Bool-cases, Option-cases, eq_iff, inl, inr,
}
use mathlib.Core.List.{append-nil}
use grag.Base.Dict.{Dict, contains, lookup, insert, lookup-insert}
use grag.Base.Values.{Python, Props}
use grag.Graph.{NodeRecord, Subgraph}
use grag.Pack.State.{TextExcerpt, PackedContext, Scope, ids, set_props, public, originals, props_of}
use grag.Pack.Fill.{original_props}
use grag.Pack.{node_map, seed_nodes, other_nodes, ordered_nodes, scope_of}
use grag.Pack.Coherence.{contains-append}

-- No id of the nodes is among the ids before it, or among those seen.
abbrev pub Distinct : List String → List NodeRecord → Type 0
Distinct seen [] = Unit
Distinct seen (n ∷ ns) = (contains seen n.id ≡ false) × Distinct (n.id ∷ seen) ns

-- The order of what was seen does not matter.
Distinct-same :
    (xs ys : List String) (ns : List NodeRecord)
    → ((k : String) → contains xs k ≡ contains ys k)
    → Distinct xs ns
    → Distinct ys ns
unfolding contains
Distinct-same xs ys [] same h = tt
Distinct-same xs ys (n ∷ ns) same (new, h) =
    (sym (same n.id) ∙ new, Distinct-same (n.id ∷ xs) (n.id ∷ ys) ns (λ k. rw (same k)) h)

other_nodes-Distinct :
    (ns : List NodeRecord) (seen : List String) → Distinct seen (other_nodes ns seen)
unfolding other_nodes
other_nodes-Distinct [] seen = tt
other_nodes-Distinct (n ∷ ns) seen = elim (Bool-cases (contains seen n.id)) [
  | inl e ↦ rw e (other_nodes-Distinct ns seen)
  | inr e ↦ rw e (e, other_nodes-Distinct ns (n.id ∷ seen))
]

node_map-id :
    (id : String) (ns : List NodeRecord) (n : NodeRecord) → node_map id ns ≡ some n → n.id ≡ id
unfolding node_map
node_map-id id [] n h = cc
node_map-id id (m ∷ ns) n h = ground (arith, node_map-id id ns n, eq_iff m.id id)

seed_nodes-Distinct :
    (nodes : List NodeRecord) (seeds : List String) (seen : List String)
    → Distinct seen (seed_nodes nodes seeds seen)
unfolding seed_nodes
seed_nodes-Distinct nodes [] seen = tt
seed_nodes-Distinct nodes (id ∷ more) seen = elim (Option-cases (node_map id nodes)) [
  | inl e ↦ rw (e, seed_nodes) (seed_nodes-Distinct nodes more seen)
  | inr (n, e) ↦
      rw (e, seed_nodes)
        (elim (Bool-cases (contains seen id)) [
          | inl old ↦ rw old (seed_nodes-Distinct nodes more seen)
          | inr new ↦ rw new (
            rw (node_map-id id nodes n e) new,
            rw (node_map-id id nodes n e) (seed_nodes-Distinct nodes more (id ∷ seen)),
          )
        ])
]

Distinct-append :
    (seen : List String) (ns ms : List NodeRecord)
    → Distinct seen ns
    → Distinct (ids ns ++ seen) ms
    → Distinct seen (ns ++ ms)
unfolding contains
Distinct-append seen [] ms h k = k
Distinct-append seen (n ∷ ns) ms (new, h) k = (
  new,
  Distinct-append (n.id ∷ seen) ns ms h
      (Distinct-same _ _ ms (λ j. simp contains-append (ground arith)) k),
)

ordered_nodes-Distinct : (g : Subgraph) (seeds : List String) → Distinct [] (ordered_nodes g seeds)
unfolding ordered_nodes
ordered_nodes-Distinct g seeds =
    Distinct-append [] (seed_nodes g.nodes seeds []) _ (seed_nodes-Distinct g.nodes seeds [])
      (rw append-nil (other_nodes-Distinct g.nodes _))

Distinct-map :
    (seen : List String) (ns : List NodeRecord)
    → Distinct seen ns
    → Distinct seen (map (λ (n : NodeRecord). set_props n (public n.properties)) ns)
Distinct-map seen [] h = tt
Distinct-map seen (n ∷ ns) (new, h) = (new, Distinct-map (n.id ∷ seen) ns h)

abbrev record_node : Dict Props → NodeRecord → Dict Props
record_node d n = insert n.id n.properties d

lookup-record_nodes :
    (ns : List NodeRecord) (d : Dict Props) (id : String) (seen : List String)
    → contains seen id ≡ true
    → Distinct seen ns
    → lookup id (foldl record_node d ns) ≡ lookup id d
unfolding contains
lookup-record_nodes [] d id seen old h = refl
lookup-record_nodes (n ∷ ns) d id seen old (new, h) =
    lookup-record_nodes ns (record_node d n) id (n.id ∷ seen) (ground arith) h
    ∙ ground (arith, lookup-insert n.id id n.properties d, eq_iff n.id id)

All-record_nodes :
    (ns : List NodeRecord) (d : Dict Props) (seen : List String)
    → Distinct seen ns
    → All (λ n. lookup n.id (foldl record_node d ns) ≡ some n.properties) ns
unfolding contains
All-record_nodes [] d seen h = tt
All-record_nodes (n ∷ ns) d seen (new, h) = (
  lookup-record_nodes ns (record_node d n) n.id (n.id ∷ seen) (ground (arith, eq_iff n.id n.id)) h
      ∙ ground (arith, lookup-insert n.id n.id n.properties d, eq_iff n.id n.id),
  All-record_nodes ns (record_node d n) (n.id ∷ seen) h,
)

abbrev pub OwnProps : Scope → NodeRecord → Type 0
OwnProps s n = original_props s n.id ≡ n.properties

pub scope_of-OwnProps :
    (py : Python) (g : Subgraph) (budget : ℕ) (seeds : List String) (measure : PackedContext → ℕ)
    (excerpts : List TextExcerpt)
    → let s = scope_of py g budget seeds measure excerpts in All (OwnProps s) s.nodes
unfolding scope_of originals props_of
scope_of-OwnProps py g budget seeds measure excerpts =
    let s = scope_of py g budget seeds measure excerpts in
    All-map (λ n. lookup n.id (foldl record_node [] s.nodes) ≡ some n.properties) (OwnProps s)
      (λ n e. rw (e, props_of)) s.nodes
      (All-record_nodes s.nodes [] [] (Distinct-map [] _ (ordered_nodes-Distinct g seeds)))
