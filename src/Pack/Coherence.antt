-- ===== src/Pack/Coherence.antt =====
-- The edges of a packed context join nodes of the packed context.
use grag.Base.{
  ℕ, zero, suc, String, List, [], ◌∷◌, ◌++◌, ◌≡◌, refl, inl, inr, some, true, ◌||◌, leb, map,
  keep-All, All, All-append, All-map, arith, Bool-cases, str_eq, eq_iff,
}
use mathlib.Core.List.{append-nil}
use grag.Base.Dict.{contains}
use grag.Base.Values.{Python}
use grag.Graph.{NodeRecord, EdgeRecord, Subgraph}
use grag.Pack.State.{
  TextExcerpt, PackedContext, Scope, Kept, nothing, ids, public, build, cost, fits, modify,
  insert_edge_prop,
}
use grag.Pack.Phases.{
  joins, skeleton, adjacent, with_evidence, neighbors, neighbor, find_node, links, first_link,
}
use grag.Pack.Invariant.{IsKept, select_inv}
use grag.Pack.{chosen, everything, scope_of, pack_context}

pub contains-append :
    (xs ys : List String) (k : String) → contains (xs ++ ys) k ≡ contains xs k || contains ys k
unfolding contains
contains-append [] ys k = refl
contains-append (x ∷ xs) ys k = ground (arith, contains-append xs ys k)

pub ids-append : (ns ms : List NodeRecord) → ids (ns ++ ms) ≡ ids ns ++ ids ms
ids-append [] ms = refl
ids-append (n ∷ ns) ms = rw (ids-append ns ms)

pub ids-modify :
    (f : NodeRecord → NodeRecord)
    → ((n : NodeRecord) → (f n).id ≡ n.id)
    → (i : ℕ) (ns : List NodeRecord) → ids (modify i f ns) ≡ ids ns
unfolding modify
ids-modify f same i [] = refl
ids-modify f same zero (n ∷ ns) = rw (same n)
ids-modify f same (suc i) (n ∷ ns) = rw (ids-modify f same i ns)

All-modify {ℓ κ} :
    {A : Type ℓ} (P : A → Type κ) (f : A → A)
    → ((a : A) → P a → P (f a))
    → (i : ℕ) (xs : List A) → All P xs
    → All P (modify i f xs)
unfolding modify
All-modify P f keeps i [] h = tt
All-modify P f keeps zero (x ∷ xs) (px, h) = (keeps x px, h)
All-modify P f keeps (suc i) (x ∷ xs) (px, h) = (px, All-modify P f keeps i xs h)

All-Unit : (ns : List NodeRecord) → All (λ n. Unit {0}) ns
All-Unit [] = tt
All-Unit (n ∷ ns) = (tt, All-Unit ns)

-- Both ends of the edge are among the ids.
abbrev Joined : List String → EdgeRecord → Type 0
Joined known e = joins e known ≡ true

joins-append :
    (e : EdgeRecord) (xs ys : List String) → joins e xs ≡ true → joins e (xs ++ ys) ≡ true
joins-append e xs ys h =
    rw (contains-append xs ys e.source, contains-append xs ys e.target) (ground arith)

abbrev IsCoherent : Kept → Type 0
IsCoherent k = All (Joined (ids k.nodes)) k.edges

IsCoherent-nodes :
    (k : Kept) (ns : List NodeRecord) → IsCoherent k → All (Joined (ids (k.nodes ++ ns))) k.edges
IsCoherent-nodes k ns h = rw ids-append (
    All-map (Joined (ids k.nodes)) (Joined (ids k.nodes ++ ids ns))
      (λ e. joins-append e (ids k.nodes) (ids ns)) k.edges h)

contains-find_node :
    (id : String) (ns : List NodeRecord)
    → contains (ids ns) id ≡ true
    → (n : NodeRecord) × (find_node id ns ≡ some n) × (n.id ≡ id)
unfolding contains find_node
contains-find_node id [] h = cc
contains-find_node id (n ∷ ns) h = elim (Bool-cases (str_eq n.id id)) [
  | inl e ↦ (n, rw e, (eq_iff n.id id).0 e)
  | inr e ↦ let r = contains-find_node id ns (ground arith) in (r.0, rw e r.1, r.2)
]

joins_ends :
    (e : EdgeRecord) (known xs ys : List String)
    → contains (known ++ xs) e.source ≡ true
    → contains (known ++ ys) e.target ≡ true
    → joins e (known ++ (xs ++ ys)) ≡ true
joins_ends e known xs ys h k =
    simp contains-append
      (ground (arith, contains-append known xs e.source, contains-append known ys e.target))

module _ (s : Scope) where
  contains-neighbor :
      (known : List String) (id : String)
      → contains (ids s.nodes) id ≡ true
      → contains (known ++ ids (neighbor s known id)) id ≡ true
  unfolding neighbor
  contains-neighbor known id h = elim (Bool-cases (contains known id)) [
    | inl e ↦ rw (contains-append, e)
    | inr e ↦
        let found = contains-find_node id s.nodes h in
        rw (contains-append, e, found.1)
          (unfold skeleton contains in ground (arith, eq_iff found.0.id id, found.2))
  ]

  pair-joins :
      (known : List String) (e : EdgeRecord)
      → joins e (ids s.nodes) ≡ true
      → joins e (known ++ ids (neighbors s known e)) ≡ true
  unfolding neighbors
  pair-joins known e h = elim (Bool-cases (str_eq e.source e.target)) [
    | inl t ↦
        let same = (eq_iff e.source e.target).0 t in
        let found = contains-neighbor known e.source (ground arith) in
        rw (t, append-nil) (ground (arith, found, same))
    | inr t ↦
        rw (t, ids-append)
          (joins_ends e known _ _ (contains-neighbor known e.source (ground arith))
            (contains-neighbor known e.target (ground arith)))
  ]

  link-joins :
      (e : EdgeRecord) (known : List String) (id : String)
      → joins e (id ∷ known) ≡ true
      → joins e (known ++ id ∷ []) ≡ true
  unfolding contains
  link-joins e known id h =
      rw (contains-append known (id ∷ []) e.source, contains-append known (id ∷ []) e.target)
        (ground arith)

  first_link-joins :
      (es : List EdgeRecord) (known : List String) (id : String)
      → All (λ e. joins e (id ∷ known) ≡ true) es
      → All (Joined (known ++ id ∷ [])) (first_link es)
  unfolding first_link
  first_link-joins [] known id h = tt
  first_link-joins (e ∷ es) known id h = (link-joins e known id h.0, tt)

  evidence-IsCoherent :
      (k : Kept) (n : NodeRecord) → IsCoherent k → IsCoherent (with_evidence s k n)
  unfolding links skeleton
  evidence-IsCoherent k n h =
      All-append (Joined (ids (k.nodes ++ skeleton s n ∷ []))) k.edges _ (IsCoherent-nodes k _ h) (
        rw ids-append (
          first_link-joins _ (ids k.nodes) n.id
            (keep-All (λ e. joins e (n.id ∷ ids k.nodes)) (adjacent s n.id))))

  IsCoherent-IsKept : IsKept s (λ n. Unit {0}) (Joined (ids s.nodes)) IsCoherent
  IsCoherent-IsKept = record {
    start = tt;
    node = λ k n _ h _. IsCoherent-nodes k _ h;
    bare_node = λ k n _ h _ _. IsCoherent-nodes k _ h;
    edge = λ k e _ h j _. All-append _ k.edges _ h (j, tt);
    pair = λ k e r h _ _. (rw ids-append (pair-joins (ids k.nodes) e r), tt);
    cite = λ k i h _. rw ids-modify h;
    clear = λ k i h. rw ids-modify h;
    node_prop = λ k i key v n h _ _ _ _. rw ids-modify h;
    edge_prop = λ k i key v h _. All-modify _ (insert_edge_prop key v) (λ e j. j) i k.edges h;
    excerpt = λ k x h _. h;
    evidence = λ k n _ _ h _. evidence-IsCoherent k n h;
  }

-- What is chosen is coherent: the edges of the scope join nodes of the scope.
chosen-IsCoherent : (s : Scope) → All (Joined (ids s.nodes)) s.edges → IsCoherent (chosen s)
unfolding chosen
chosen-IsCoherent s rs = elim (Bool-cases (fits s (everything s))) [
  | inl e ↦ rw e rs
  | inr e ↦ rw e (elim (Bool-cases (leb s.token_budget (cost s nothing))) [
    | inl f ↦ rw f tt
    | inr f ↦ rw f (select_inv s (IsCoherent-IsKept s) (All-Unit s.nodes) rs (ground arith))
  ])
]

All-map-public :
    (known : List String) (es : List EdgeRecord)
    → All (Joined known) es
    → All
        (Joined known)
        (map (λ (e : EdgeRecord). record e { properties = public e.properties }) es)
All-map-public known [] h = tt
All-map-public known (e ∷ es) h = (h.0, All-map-public known es h.1)

-- Whatever the subgraph, the budget, the seeds, the measure and the excerpts are, both ends of each
-- edge of the packed subgraph are among the ids of the nodes that the response includes.
pub pack_context-coherent :
    (py : Python) (g : Subgraph) (budget : ℕ) (seed_ids : List String) (measure : PackedContext → ℕ)
    (excerpts : List TextExcerpt)
    → let packed = pack_context py g budget seed_ids measure excerpts in
      All (λ e. joins e packed.included_node_ids ≡ true) packed.subgraph.edges
unfolding pack_context build
pack_context-coherent py g budget seed_ids measure excerpts =
    chosen-IsCoherent (scope_of py g budget seed_ids measure excerpts)
      (unfold scope_of in All-map-public _ _ (keep-All _ g.edges))
