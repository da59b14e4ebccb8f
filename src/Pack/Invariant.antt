-- ===== src/Pack/Invariant.antt =====
-- An invariant of `pack_context`: one condition for each change that the phases make, with what
-- the code has tested before the change.
use grag.Base.{
  ℕ, ◌≤◌, String, List, [], ◌∷◌, ◌≡◌, some, Bool, true, false, not, ◌&&◌, ◌||◌, if◌then◌else◌, leb,
  leb→le, le→leb, length, foldl, is_empty, All, All-keep, All-append, foldl_inv, foldl_inv_all,
  if_inv, ||_false, or3_false, or_not, Option-cases, arith, inl, inr,
}
use grag.Base.Dict.{contains, has}
use grag.Base.Values.{Value, get, truthy}
use grag.Graph.{NodeRecord, EdgeRecord}
use grag.Pack.Render.{safety_props, citation_props, provenance_source}
use grag.Pack.State.{
  TextExcerpt, Scope, Kept, nothing, ids, edge_ids, set_props, bare, cost, fits, push_node,
  push_edge, push_excerpt, modify_node, modify_edge, get_elem?, insert_node_prop, insert_edge_prop,
}
use grag.Pack.Fill.{
  Ref, original_props, lacks_safety, offer, fill_node, fill_edge, fill_ref, fill_field, fill,
  fill_all, excerpts_for, sort_by, priority, fields,
}
use grag.Pack.Phases.{
  skeleton, adjacent, joins, topology_budget, link, has_safety, admit, topology, with_pair,
  first_pair, connect_first, all_adjacent, cited, cite_at, cite, connect_edge, connect,
  with_evidence, is_stray, extend, spend, select, positions, links, first_link, edge_refs,
}

module _ (s : Scope) where
  -- `Q` and `R` hold of the scope's nodes and edges.
  pub record IsKept (Q : NodeRecord → Type 0) (R : EdgeRecord → Type 0) (P : Kept → Type 0)
      : Type 0 where
    pub start : P nothing
    pub node :
        (k : Kept) (n : NodeRecord)
        → Q n
        → P k
        → fits s (push_node (skeleton s n) k) ≡ true
        → P (push_node (skeleton s n) k)
    pub bare_node :
        (k : Kept) (n : NodeRecord)
        → Q n
        → P k
        → has_safety safety_props n.properties ≡ false
        → fits s (push_node (set_props n []) k) ≡ true
        → P (push_node (set_props n []) k)
    pub edge :
        (k : Kept) (e : EdgeRecord)
        → R e
        → P k
        → joins e (ids k.nodes) ≡ true
        → fits s (push_edge (bare e) k) ≡ true
        → P (push_edge (bare e) k)
    pub pair :
        (k : Kept) (e : EdgeRecord)
        → R e
        → P k
        → is_empty k.edges ≡ true
        → fits s (with_pair s k e) ≡ true
        → P (with_pair s k e)
    pub cite :
        (k : Kept) (i : ℕ)
        → P k
        → fits s (modify_node i (cited s) k) ≡ true
        → P (modify_node i (cited s) k)
    pub clear : (k : Kept) (i : ℕ) → P k → P (modify_node i (λ n. set_props n []) k)
    pub node_prop :
        (k : Kept) (i : ℕ) (key : String) (value : Value) (n : NodeRecord)
        → P k
        → get_elem? k.nodes i ≡ some n
        → lacks_safety safety_props (original_props s n.id) n.properties ≡ false
        → has key n.properties ≡ false
        → fits s (modify_node i (insert_node_prop key value) k) ≡ true
        → P (modify_node i (insert_node_prop key value) k)
    pub edge_prop :
        (k : Kept) (i : ℕ) (key : String) (value : Value)
        → P k
        → fits s (modify_edge i (insert_edge_prop key value) k) ≡ true
        → P (modify_edge i (insert_edge_prop key value) k)
    pub excerpt :
        (k : Kept) (x : TextExcerpt) → P k → fits s (push_excerpt x k) ≡ true → P (push_excerpt x k)
    pub evidence :
        (k : Kept) (n : NodeRecord)
        → Q n
        → All R (adjacent s n.id)
        → P k
        → fits s (with_evidence s k n) ≡ true
        → P (with_evidence s k n)

  module _ {Q : NodeRecord → Type 0} {R : EdgeRecord → Type 0} {P : Kept → Type 0}
      (c : IsKept Q R P) (qs : All Q s.nodes) (rs : All R s.edges) where
    offer_inv : (xs : List TextExcerpt) (k : Kept) → P k → P (offer s xs k)
    unfolding offer
    offer_inv [] k h = h
    offer_inv (x ∷ xs) k h = if_inv P _ _ _ (λ f. c.excerpt k x h f) (λ _. offer_inv xs k h)

    fill_node_inv :
        (k : Kept) (i : ℕ) (key : String) (value : Value) (n : NodeRecord)
        → P k
        → get_elem? k.nodes i ≡ some n
        → P (fill_node s i key value n k)
    unfolding fill_node
    fill_node_inv k i key value n h at =
        let unsafe = lacks_safety safety_props (original_props s n.id) n.properties in
        let there = has key n.properties in
        let bundled = contains citation_props key in
        let filled = modify_node i (insert_node_prop key value) k in
        let uncited =
          truthy (get (original_props s n.id) provenance_source)
          && not (truthy (get n.properties provenance_source)) in
        let offered = offer s (excerpts_for s n.id key) k in
        let rest = if uncited then k else offered in
        if_inv P (unsafe || there || bundled) k (if fits s filled then filled else rest) (λ _. h)
          λ t.
            let new = or3_false unsafe there bundled t in
            if_inv P (fits s filled) filled rest
              (λ f. c.node_prop k i key value n h at new.0 new.1 f)
              λ _.
                if_inv P uncited k offered (λ _. h) (λ _. offer_inv (excerpts_for s n.id key) k h)

    fill_edge_inv :
        (k : Kept) (i : ℕ) (key : String) (value : Value) (e : EdgeRecord)
        → P k
        → P (fill_edge s i key value e k)
    unfolding fill_edge
    fill_edge_inv k i key value e h =
        if_inv P _ _ _ (λ _. h) λ _. if_inv P _ _ _ (λ f. c.edge_prop k i key value h f) (λ _. h)

    fill_ref_inv :
        (k : Kept) (r : Ref) (key : String) (value : Value) → P k → P (fill_ref s r key value k)
    unfolding fill_ref
    fill_ref_inv k (Ref.node i) key value h = elim (Option-cases (get_elem? k.nodes i)) [
      | inl e ↦ rw (e, fill_ref) h
      | inr (n, e) ↦ rw (e, fill_ref) (fill_node_inv k i key value n h e)
    ]
    fill_ref_inv k (Ref.edge i) key value h = elim (Option-cases (get_elem? k.edges i)) [
      | inl e ↦ rw (e, fill_ref) h
      | inr (n, e) ↦ rw (e, fill_ref) (fill_edge_inv k i key value n h)
    ]

    fill_inv : (metadata : Bool) (refs : List Ref) (k : Kept) → P k → P (fill s metadata refs k)
    unfolding fill fill_field
    fill_inv metadata refs k h =
        foldl_inv P (fill_field s) (λ k f h. fill_ref_inv k f.ref f.key f.value h) k
          (sort_by (λ f. priority f.key) (fields s k metadata refs)) h

    fill_all_inv : (metadata : Bool) (k : Kept) → P k → P (fill_all s metadata k)
    unfolding fill_all
    fill_all_inv metadata k h = fill_inv metadata _ k h

    cite_inv : (k : Kept) → P k → P (cite s k)
    unfolding cite cite_at
    cite_inv k h =
        foldl_inv P (cite_at s) (λ k i h. if_inv P _ _ _ (λ f. c.cite k i h f) (λ _. c.clear k i h))
          k (positions 0 k.nodes) h

    connect_edge_inv : (k : Kept) (e : EdgeRecord) → R e → P k → P (connect_edge s k e)
    unfolding connect_edge
    connect_edge_inv k e r h =
        let held = contains (edge_ids k.edges) e.id in
        let refs = Ref.edge (length k.edges) ∷ [] in
        let joined = push_edge (bare e) k in
        let filled = fill s false refs joined in
        if_inv P (held || not (joins e (ids k.nodes))) k (if fits s joined then filled else k)
          (λ _. h)
          λ t.
            if_inv P (fits s joined) filled k
              (λ f. fill_inv false refs joined (c.edge k e r h (or_not held _ t) f)) (λ _. h)

    connect_inv : (k : Kept) → P k → P (connect s k)
    unfolding connect
    connect_inv k h = foldl_inv_all P R (connect_edge s) connect_edge_inv k s.edges rs h

    adjacent-All : (id : String) → All R (adjacent s id)
    unfolding adjacent
    adjacent-All id = All-keep R _ s.edges rs

    extend_inv : (k : Kept) (n : NodeRecord) → Q n → P k → P (extend s k n)
    unfolding extend
    extend_inv k n q h =
        let more = with_evidence s k n in
        let refs =
          Ref.node (length k.nodes) ∷ edge_refs (length k.edges) (first_link (links s k n)) in
        let filled = connect s (fill s false refs more) in
        if_inv P (contains (ids k.nodes) n.id || is_stray s k n) k
          (if fits s more then filled else k) (λ _. h)
          λ _.
            if_inv P (fits s more) filled k
              (λ f.
                connect_inv _ (fill_inv false refs more (c.evidence k n q (adjacent-All n.id) h f)))
              (λ _. h)

    spend_inv : (k : Kept) → P k → P (spend s k)
    unfolding spend
    spend_inv k h = foldl_inv_all P Q (extend s) extend_inv k s.nodes qs h

    first_pair_inv :
        (k : Kept) (es : List EdgeRecord)
        → is_empty k.edges ≡ true
        → All R es
        → P k
        → P (first_pair s k es)
    unfolding first_pair
    first_pair_inv k [] none_kept r h = h
    first_pair_inv k (e ∷ es) none_kept (re, r) h =
        if_inv P _ _ _ (λ f. c.pair k e re h none_kept f) (λ _. first_pair_inv k es none_kept r h)

    all_adjacent-All : (ns : List NodeRecord) → All R (all_adjacent s ns)
    unfolding all_adjacent
    all_adjacent-All [] = tt
    all_adjacent-All (n ∷ ns) =
        All-append R (adjacent s n.id) _ (adjacent-All n.id) (all_adjacent-All ns)

    connect_first_inv : (k : Kept) → P k → P (connect_first s k)
    unfolding connect_first
    connect_first_inv k h =
        if_inv P _ _ _ (λ t. first_pair_inv k _ t (all_adjacent-All k.nodes) h) (λ _. h)

    module _ (room : cost s nothing ≤ s.token_budget) where
      within_topology : (k : Kept) → leb (cost s k) (topology_budget s) ≡ true → fits s k ≡ true
      within_topology k h = le→leb _ _ (omega (arith, leb→le _ _ h))

      link_inv : (k : Kept) (e : EdgeRecord) → R e → P k → P (link s k e)
      unfolding link
      link_inv k e r h =
          if_inv P _ _ _ (λ _. h)
            λ t. if_inv P _ _ _ (λ f. c.edge k e r h (or_not _ _ t) (within_topology _ f)) (λ _. h)

      links_inv : (k : Kept) (id : String) → P k → P (foldl (link s) k (adjacent s id))
      links_inv k id h = foldl_inv_all P R (link s) link_inv k _ (adjacent-All id) h

      within_limit :
          (b : Bool) (k : Kept)
          → leb (cost s k) (if b then s.token_budget else topology_budget s) ≡ true
          → fits s k ≡ true
      within_limit true k h = h
      within_limit false k h = within_topology k h

      admit_inv : (k : Kept) (n : NodeRecord) → Q n → P k → P (admit s k n)
      unfolding admit
      admit_inv k n q h =
          if_inv P _ _ _
            (λ f. links_inv _ n.id (c.node k n q h (within_limit (is_empty k.nodes) _ f)))
            λ _.
              if_inv P _ _ _ (λ _. h)
                λ t.
                  if_inv P _ _ _ (λ f. links_inv _ n.id (c.bare_node k n q h (||_false _ _ t).1 f))
                    (λ _. h)

      topology_inv : P (topology s)
      unfolding topology
      topology_inv = foldl_inv_all P Q (admit s) admit_inv nothing s.nodes qs c.start

      -- What every change keeps, the selection has.
      pub select_inv : P (select s)
      unfolding select
      select_inv = fill_all_inv true _ (
          spend_inv _
            (connect_inv _ (fill_all_inv false _ (cite_inv _ (connect_first_inv _ topology_inv)))))
