-- ===== src/Pack/Safety.antt =====
-- The lifecycle qualifiers of a node stay with its other properties.
use grag.Base.{
  ℕ, zero, suc, String, List, [], ◌∷◌, ◌≡◌, refl, ◌∙◌, sym, ◌⊎◌, inl, inr, some, Bool, true, false,
  leb, All, All-append, All-map, arith, Bool-cases, Option-cases, str_eq, eq_iff, if_inv,
}
use mathlib.Core.Option.{some-injective}
use grag.Base.Dict.{contains, lookup, insert, update, has, filter_items, lookup-insert}
use grag.Base.Values.{Python, get, Props, Value}
use grag.Graph.{NodeRecord, EdgeRecord, Subgraph}
use grag.Pack.Render.{safety_props, citation_props}
use grag.Pack.State.{
  TextExcerpt, PackedContext, Scope, Kept, nothing, ids, set_props, build, cost, fits, modify,
  get_elem?, insert_node_prop,
}
use grag.Pack.Fill.{original_props, lacks_safety}
use grag.Pack.Phases.{
  skeleton, add_prose, citation, cited, neighbors, neighbor, find_node, prose_props,
}
use grag.Pack.Invariant.{IsKept, select_inv}
use grag.Pack.Coherence.{contains-append}
use grag.Pack.Originals.{OwnProps, scope_of-OwnProps}
use grag.Pack.{chosen, everything, scope_of, pack_context}

has-insert :
    (q key : String) (v : Value) (d : Props) → has q d ≡ true → has q (insert key v d) ≡ true
has-insert q key v d h = ground (arith, lookup-insert key q v d)

has-insert_self : (q : String) (v : Value) (d : Props) → has q (insert q v d) ≡ true
has-insert_self q v d = ground (arith, lookup-insert q q v d, eq_iff q q)

has-update_left : (q : String) (d e : Props) → has q d ≡ true → has q (update d e) ≡ true
unfolding update
has-update_left q d [] h = h
has-update_left q d ((k, v) ∷ e) h = has-update_left q (insert k v d) e (has-insert q k v d h)

has-update_right : (q : String) (d e : Props) → has q e ≡ true → has q (update d e) ≡ true
unfolding update lookup
has-update_right q d [] h = cc
has-update_right q d ((k, v) ∷ e) h = elim (Bool-cases (str_eq k q)) [
  | inl t ↦ has-update_left q (insert k v d) e (rw (← (eq_iff k q).0 t) (has-insert_self k v d))
  | inr t ↦ has-update_right q (insert k v d) e (ground arith)
]

has-filter_items :
    (p : String → Value → Bool) (q : String) (d : Props)
    → ((v : Value) → p q v ≡ true)
    → has q d ≡ true
    → has q (filter_items p d) ≡ true
unfolding filter_items lookup
has-filter_items p q [] all h = cc
has-filter_items p q ((k, v) ∷ d) all h = elim (Bool-cases (str_eq k q)) [
  | inl t ↦ ground (arith, all v, eq_iff k q)
  | inr t ↦ ground (arith, has-filter_items p q d all)
]

-- `lacks_safety` fails exactly if each qualifier of the original is among the properties.
lacks_safety_of :
    (qs : List String) (original props : Props)
    → ((q : String) → contains qs q ≡ true → has q original ≡ true → has q props ≡ true)
    → lacks_safety qs original props ≡ false
unfolding lacks_safety contains
lacks_safety_of [] original props all = refl
lacks_safety_of (q ∷ qs) original props all =
    ground
      (arith, all q, eq_iff q q, lacks_safety_of qs original props (λ p c. all p (ground arith)))

pub has_of_lacks_safety :
    (qs : List String) (original props : Props) (q : String)
    → lacks_safety qs original props ≡ false
    → contains qs q ≡ true
    → has q original ≡ true
    → has q props ≡ true
unfolding lacks_safety contains
has_of_lacks_safety [] original props q h c o = cc
has_of_lacks_safety (p ∷ qs) original props q h c o =
    ground (arith, eq_iff p q, has_of_lacks_safety qs original props q)

abbrev citation_head : List String
citation_head = "_source" ∷ "line_start" ∷ "line_end" ∷ "status" ∷ "_revision" ∷ []

contains-citation_props :
    (q : String) → contains safety_props q ≡ true → contains citation_props q ≡ true
contains-citation_props q h = contains-append citation_head safety_props q ∙ ground arith

has-citation :
    (q : String) (d : Props)
    → contains safety_props q ≡ true
    → has q d ≡ true
    → has q (citation d) ≡ true
unfolding citation
has-citation q d c h =
    has-filter_items (λ k v. contains citation_props k) q d (λ v. contains-citation_props q c) h

module _ (s : Scope) where
  has-add_prose :
      (n : NodeRecord) (q : String) (props : Props) (keys : List String)
      → has q props ≡ true
      → has q (add_prose s n props keys) ≡ true
  unfolding add_prose
  has-add_prose n q props [] h = h
  has-add_prose n q props (key ∷ more) h =
      let later = has-add_prose n q props more h in
      ground (arith, later, has-insert q key (get n.properties key) props)

  abbrev IsQualified : String → Props → Type 0
  IsQualified id props = lacks_safety safety_props (original_props s id) props ≡ false

  -- A node shows no property, or all the qualifiers that its original has.
  abbrev IsSafe : NodeRecord → Type 0
  IsSafe n = (n.properties ≡ []) ⊎ IsQualified n.id n.properties

  skeleton-IsSafe : (n : NodeRecord) → OwnProps s n → IsSafe (skeleton s n)
  unfolding skeleton
  skeleton-IsSafe n own = inr (
      lacks_safety_of safety_props _ _ λ q c h.
        has-add_prose n q (citation n.properties) prose_props
          (has-citation q n.properties c (rw own at h)))

  cited-IsSafe : (n : NodeRecord) → IsSafe (cited s n)
  cited-IsSafe n = inr (
      lacks_safety_of safety_props _ _ λ q c h.
        has-update_right q n.properties (citation (original_props s n.id)) (has-citation q _ c h))

  insert-IsSafe :
      (key : String) (v : Value) (n : NodeRecord)
      → IsQualified n.id n.properties
      → IsSafe (insert_node_prop key v n)
  insert-IsSafe key v n h = inr (
      lacks_safety_of safety_props _ _ λ q c o.
        has-insert q key v n.properties
          (has_of_lacks_safety safety_props (original_props s n.id) n.properties q h c o))

  All-modify_at :
      (f : NodeRecord → NodeRecord) (i : ℕ) (ns : List NodeRecord)
      → ((n : NodeRecord) → get_elem? ns i ≡ some n → IsSafe (f n))
      → All IsSafe ns
      → All IsSafe (modify i f ns)
  unfolding modify get_elem?
  All-modify_at f i [] at h = tt
  All-modify_at f zero (n ∷ ns) at h = (at n refl, h.1)
  All-modify_at f (suc i) (n ∷ ns) at h = (h.0, All-modify_at f i ns at h.1)

  find_node-OwnProps :
      (id : String) (ns : List NodeRecord) (n : NodeRecord)
      → All (OwnProps s) ns
      → find_node id ns ≡ some n
      → OwnProps s n
  unfolding find_node
  find_node-OwnProps id [] n own e = cc
  find_node-OwnProps id (m ∷ ns) n own e = elim (Bool-cases (str_eq m.id id)) [
    | inl t ↦ rw (← some-injective m n (rw t at e)) own.0
    | inr t ↦ find_node-OwnProps id ns n own.1 (rw t at e)
  ]

  neighbor-IsSafe :
      (known : List String) (id : String)
      → All (OwnProps s) s.nodes
      → All IsSafe (neighbor s known id)
  unfolding neighbor
  neighbor-IsSafe known id own =
      if_inv (All IsSafe) (contains known id) [] _ (λ _. tt)
        λ _. elim (Option-cases (find_node id s.nodes)) [
          | inl e ↦ rw e tt
          | inr (n, e) ↦ rw e (skeleton-IsSafe n (find_node-OwnProps id s.nodes n own e), tt)
        ]

  neighbors-IsSafe :
      (known : List String) (e : EdgeRecord)
      → All (OwnProps s) s.nodes
      → All IsSafe (neighbors s known e)
  unfolding neighbors
  neighbors-IsSafe known e own =
      All-append IsSafe (neighbor s known e.source) _ (neighbor-IsSafe known e.source own) (
        if_inv (All IsSafe) (str_eq e.source e.target) [] (neighbor s known e.target) (λ _. tt)
          (λ _. neighbor-IsSafe known e.target own))

  AllSafe : Kept → Type 0
  AllSafe k = All IsSafe k.nodes

  AllSafe-IsKept : All (OwnProps s) s.nodes → IsKept s (OwnProps s) (λ e. Unit {0}) AllSafe
  unfolding AllSafe
  AllSafe-IsKept own = record {
    start = tt;
    node = λ k n q h _. All-append IsSafe k.nodes _ h (skeleton-IsSafe n q, tt);
    bare_node = λ k n q h _ _. All-append IsSafe k.nodes _ h (inl refl, tt);
    edge = λ k e _ h _ _. h;
    pair = λ k e _ h _ _. All-append IsSafe k.nodes _ h (neighbors-IsSafe (ids k.nodes) e own);
    cite = λ k i h _. All-modify_at (cited s) i k.nodes (λ n _. cited-IsSafe n) h;
    clear = λ k i h. All-modify_at (λ n. set_props n []) i k.nodes (λ n _. inl refl) h;
    node_prop = λ k i key v n h at l _ _.
        All-modify_at (insert_node_prop key v) i k.nodes
          (λ m at'. insert-IsSafe key v m (rw (← some-injective n m (sym at ∙ at')) l)) h;
    edge_prop = λ k i key v h _. h;
    excerpt = λ k x h _. h;
    evidence = λ k n q _ h _. All-append IsSafe k.nodes _ h (skeleton-IsSafe n q, tt);
  }

  given-IsSafe : (ns : List NodeRecord) → All (OwnProps s) ns → All IsSafe ns
  given-IsSafe ns own =
      All-map (OwnProps s) IsSafe (λ n o. inr (lacks_safety_of safety_props _ _ λ q c h. rw o at h))
        ns own

  no_edges : (es : List EdgeRecord) → All (λ e. Unit {0}) es
  no_edges [] = tt
  no_edges (e ∷ es) = (tt, no_edges es)

  chosen-IsSafe : All (OwnProps s) s.nodes → All IsSafe (chosen s).nodes
  unfolding chosen AllSafe
  chosen-IsSafe own = elim (Bool-cases (fits s (everything s))) [
    | inl e ↦ rw e (given-IsSafe s.nodes own)
    | inr e ↦ rw e (elim (Bool-cases (leb s.token_budget (cost s nothing))) [
      | inl f ↦ rw f tt
      | inr f ↦ rw f (select_inv s (AllSafe-IsKept own) own (no_edges s.edges) (ground arith))
    ])
  ]

-- Whatever the subgraph, the budget, the seeds, the measure and the excerpts are, each node of the
-- packed subgraph shows no property at all, or every lifecycle qualifier that the subgraph's node
-- of that id has.
pub pack_context-safe :
    (py : Python) (g : Subgraph) (budget : ℕ) (seed_ids : List String) (measure : PackedContext → ℕ)
    (excerpts : List TextExcerpt)
    → let given = original_props (scope_of py g budget seed_ids measure excerpts) in
      All
        (λ n.
          (n.properties ≡ [])
          ⊎ ((q : String)
              → contains safety_props q ≡ true
              → has q (given n.id) ≡ true
              → has q n.properties ≡ true))
        (pack_context py g budget seed_ids measure excerpts).subgraph.nodes
unfolding pack_context build
pack_context-safe py g budget seed_ids measure excerpts =
    let s = scope_of py g budget seed_ids measure excerpts in
    All-map (IsSafe s) _
      (λ n safe. elim safe [
        | inl empty ↦ inl empty
        | inr l ↦ inr (λ q. has_of_lacks_safety safety_props _ _ q l)
      ])
      (chosen s).nodes (chosen-IsSafe s (scope_of-OwnProps py g budget seed_ids measure excerpts))
