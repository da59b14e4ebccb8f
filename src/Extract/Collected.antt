-- ===== src/Extract/Collected.antt =====
-- The two loops of `extract_subgraph`: the records by their ids, and the ids by internal keys.
use grag.Base.{
  String, str_eq, eq_iff, List, [], ◌∷◌, map, Bool, true, false, ◌||◌, if_inv, All, sym, ◌⊎◌, ◌≡◌,
  refl, Bool-cases, inl, inr, arith,
}
use grag.Base.Dict.{Dict, lookup, insert, has, contains, lookup-insert}
use grag.Base.Dict.Unique.{Unique, insert-Unique}
use grag.Graph.{NodeRecord, EdgeRecord}
use grag.Extract.{
  Fields, get_field, Python, InternalKey, internal_key, node_record_from_value,
  edge_record_from_value, Ids, key_eq, id_of, set_default, collect_nodes, collect_edges,
}

-- Every id is there once.
abbrev pub Distinct : List String → Type 0
Distinct [] = Unit
Distinct (x ∷ xs) = (contains xs x ≡ false) × Distinct xs

-- A dict of records by their ids.
pub record IsById {V : Type 0} (id : V → String) (d : Dict V) : Type 0 where
  pub unique : Unique d
  pub named : All (λ p. p.0 ≡ id p.1) d

abbrev pub ids : {V : Type 0} → (V → String) → Dict V → List String
ids id d = map (λ p. id p.1) d

pub contains-ids :
    {V : Type 0} (id : V → String) (d : Dict V) (k : String)
    → All (λ p. p.0 ≡ id p.1) d
    → contains (ids id d) k ≡ has k d
unfolding contains lookup
contains-ids id [] k h = refl
contains-ids id ((j, v) ∷ d) k (e, h) =
    ground (arith, contains-ids id d k h, e, eq_iff (id v) k, eq_iff j k)

pub ids-Distinct : {V : Type 0} (id : V → String) (d : Dict V) → IsById id d → Distinct (ids id d)
ids-Distinct id [] h = tt
ids-Distinct id ((j, v) ∷ d) h = (
  ground (arith, contains-ids id d (id v) h.named.1, h.named.0, h.unique.0),
  ids-Distinct id d (record { unique = h.unique.1; named = h.named.1 }),
)

insert-named :
    {V : Type 0} (id : V → String) (v : V) (d : Dict V)
    → All (λ p. p.0 ≡ id p.1) d
    → All (λ p. p.0 ≡ id p.1) (insert (id v) v d)
unfolding insert
insert-named id v [] h = (refl, tt)
insert-named id v ((j, w) ∷ d) (e, h) = ground (arith, insert-named id v d h, eq_iff j (id v))

set_default-IsById :
    {V : Type 0} (id : V → String) (v : V) (d : Dict V)
    → IsById id d
    → IsById id (set_default (id v) v d)
set_default-IsById id v d h =
    if_inv (IsById id) (has (id v) d) d (insert (id v) v d) (λ _. h)
      (λ _. record {
        unique = insert-Unique (id v) v d h.unique;
        named = insert-named id v d h.named;
      })

has-set_default :
    {V : Type 0} (k j : String) (v : V) (d : Dict V)
    → (str_eq k j || has j d) ≡ true
    → has j (set_default k v d) ≡ true
has-set_default k j v d h = ground (arith, lookup-insert k j v d, eq_iff k j, h)

has-of_set_default :
    {V : Type 0} (k j : String) (v : V) (d : Dict V)
    → has j (set_default k v d) ≡ true
    → (k ≡ j) ⊎ (has j d ≡ true)
has-of_set_default k j v d h = ground (arith, lookup-insert k j v d, eq_iff k j, h)

module _ (py : Python) where
  unfoldable pub knows : Ids py → InternalKey → Bool
  knows [] key = false
  knows ((k, id) ∷ known) key = key_eq py k key || knows known key

  -- After the first loop over some node values
  pub record Collected (pks : Dict String) (found : List Fields) (nodes : Dict NodeRecord)
      (known : Ids py) (nodes' : Dict NodeRecord) (known' : Ids py) : Type 0 where
    pub by_id : IsById (λ n. n.id) nodes'
    pub more_nodes : (j : String) → has j nodes ≡ true → has j nodes' ≡ true
    pub more_known : (key : InternalKey) → knows known key ≡ true → knows known' key ≡ true
    pub all_there : All (λ f. has (node_record_from_value py pks f).id nodes' ≡ true) found
    pub all_keys :
        All
          (λ f.
            (key : InternalKey)
            → key_eq py (internal_key (get_field "_ID" f)) key ≡ true
            → knows known' key ≡ true)
          found

  pub collect_nodes-Collected :
      (pks : Dict String) (found : List Fields) (nodes : Dict NodeRecord) (known : Ids py)
      → IsById (λ n. n.id) nodes
      → let c = collect_nodes py pks found (nodes, known) in Collected pks found nodes known c.0 c.1
  unfolding collect_nodes knows
  collect_nodes-Collected pks [] nodes known h = record {
    by_id = h;
    more_nodes = λ j t. t;
    more_known = λ key t. t;
    all_there = tt;
    all_keys = tt;
  }
  collect_nodes-Collected pks (f ∷ found) nodes known h =
      let rec_ = node_record_from_value py pks f in
      let nodes1 = set_default rec_.id rec_ nodes in
      let key1 = internal_key (get_field "_ID" f) in
      let known1 : Ids py = (key1, rec_.id) ∷ known in
      let here : has rec_.id nodes1 ≡ true =
        has-set_default rec_.id rec_.id rec_ nodes (ground (arith, eq_iff rec_.id rec_.id)) in
      let kept : (j : String) → has j nodes ≡ true → has j nodes1 ≡ true =
        λ j t. has-set_default rec_.id j rec_ nodes (ground (arith, t)) in
      let i =
        collect_nodes-Collected pks found nodes1 known1
          (set_default-IsById (λ n. n.id) rec_ nodes h) in
      record {
        by_id = i.by_id;
        more_nodes = λ j t. i.more_nodes j (kept j t);
        more_known = λ key t. i.more_known key (ground (arith, t));
        all_there = (i.more_nodes rec_.id here, i.all_there);
        all_keys = (λ key t. i.more_known key (ground (arith, t)), i.all_keys);
      }

  -- Every id is that of the record of one of some node values.
  module _ (pks : Dict String) (Q : Fields → Type 0) where
    abbrev pub Named : String → Type 0
    Named id = (m : Fields) × Q m × ((node_record_from_value py pks m).id ≡ id)

    abbrev pub Keyed : InternalKey × String → Type 0
    Keyed q =
        (m : Fields) × Q m
        × (internal_key (get_field "_ID" m) ≡ q.0)
        × ((node_record_from_value py pks m).id ≡ q.1)

    pub collect_nodes-Keyed :
        (found : List Fields) (nodes : Dict NodeRecord) (known : Ids py)
        → All Q found
        → All Keyed known
        → All Keyed (collect_nodes py pks found (nodes, known)).1
    unfolding collect_nodes
    collect_nodes-Keyed [] nodes known q k = k
    collect_nodes-Keyed (f ∷ found) nodes known (q, qs) k =
        let rec_ = node_record_from_value py pks f in
        collect_nodes-Keyed found (set_default rec_.id rec_ nodes)
          ((internal_key (get_field "_ID" f), rec_.id) ∷ known) qs ((f, q, refl, refl), k)

    pub collect_nodes-Named :
        (found : List Fields) (nodes : Dict NodeRecord) (known : Ids py)
        → All Q found
        → ((id : String) → has id nodes ≡ true → Named id)
        → (id : String) → has id (collect_nodes py pks found (nodes, known)).0 ≡ true
        → Named id
    unfolding collect_nodes
    collect_nodes-Named [] nodes known q n id h = n id h
    collect_nodes-Named (f ∷ found) nodes known (q, qs) n id h =
        let rec_ = node_record_from_value py pks f in
        collect_nodes-Named found (set_default rec_.id rec_ nodes)
          ((internal_key (get_field "_ID" f), rec_.id) ∷ known) qs
          (λ j t. elim (has-of_set_default rec_.id j rec_ nodes t) [
            | inl e ↦ (f, q, e)
            | inr t ↦ n j t
          ])
          id h

    -- What is looked up is the id of a node value with an equal internal key.
    pub id_of-Named :
        (known : Ids py) (key : InternalKey) (default : String)
        → All Keyed known
        → knows known key ≡ true
        → (m : Fields) × Q m
          × (key_eq py (internal_key (get_field "_ID" m)) key ≡ true)
          × (id_of py known key default ≡ (node_record_from_value py pks m).id)
    unfolding id_of knows
    id_of-Named [] key default h k = absurd cc
    id_of-Named ((j, id) ∷ known) key default ((m, q, same, named), h) k =
        elim (Bool-cases (key_eq py j key)) [
          | inl e ↦ (m, q, rw same e, rw (id_of, e) (sym named))
          | inr e ↦
              let (n, p, equal, found) = id_of-Named known key default h (ground (arith, k, e)) in
              (n, p, equal, rw (id_of, e) found)
        ]

  pub collect_edges-IsById :
      (known : Ids py) (found : List Fields) (edges : Dict EdgeRecord)
      → IsById (λ e. e.id) edges
      → IsById (λ e. e.id) (collect_edges py known found edges)
  unfolding collect_edges
  collect_edges-IsById known [] edges h = h
  collect_edges-IsById known (f ∷ found) edges h =
      let rec_ = edge_record_from_value py known f in
      collect_edges-IsById known found (set_default rec_.id rec_ edges)
        (set_default-IsById (λ e. e.id) rec_ edges h)

  pub collect_edges-there :
      (known : Ids py) (found : List Fields) (edges : Dict EdgeRecord)
      → ((j : String) → has j edges ≡ true → has j (collect_edges py known found edges) ≡ true)
        × All
            (λ f.
              has (edge_record_from_value py known f).id (collect_edges py known found edges)
              ≡ true)
            found
  unfolding collect_edges
  collect_edges-there known [] edges = (λ j h. h, tt)
  collect_edges-there known (f ∷ found) edges =
      let rec_ = edge_record_from_value py known f in
      let (kept, there) = collect_edges-there known found (set_default rec_.id rec_ edges) in
      (
        λ j h. kept j (has-set_default rec_.id j rec_ edges (ground (arith, h))),
        (
          kept rec_.id
              (has-set_default rec_.id rec_.id rec_ edges (ground (arith, eq_iff rec_.id rec_.id))),
          there,
        ),
      )
