-- ===== src/Pack/Budget.antt =====
-- The budget of `pack_context`.
use grag.Base.{
  ℕ, ◌≤◌, String, List, [], ◌∷◌, ◌≡◌, refl, ◌⊎◌, inl, inr, true, leb, leb→le, le→leb, All, ap,
  arith, Bool-cases,
}
use grag.Base.Values.{Python}
use grag.Graph.{Subgraph}
use grag.Pack.State.{
  TextExcerpt, PackedContext, Scope, Kept, nothing, set_props, build, cost, fits, modify_node,
}
use grag.Pack.Phases.{select}
use grag.Pack.Invariant.{IsKept, select_inv}
use grag.Pack.{chosen, everything, scope_of, pack_context}

abbrev pub clear_node : ℕ → Kept → Kept
clear_node i k = modify_node i (λ n. set_props n []) k

-- A response in which a node has lost its properties measures no more.
abbrev pub ClearShrinks : Scope → Type 0
ClearShrinks s = (k : Kept) (i : ℕ) → cost s (clear_node i k) ≤ cost s k

abbrev Anything : {A : Type 0} → A → Type 0
Anything a = Unit

All-Anything : {A : Type 0} (xs : List A) → All Anything xs
All-Anything [] = tt
All-Anything (x ∷ xs) = (tt, All-Anything xs)

module _ (s : Scope) (shrinks : ClearShrinks s) (room : cost s nothing ≤ s.token_budget) where
  fits-IsKept : IsKept s Anything Anything (λ k. fits s k ≡ true)
  fits-IsKept = record {
    start = le→leb _ _ room;
    node = λ k n _ h f. f;
    bare_node = λ k n _ h _ f. f;
    edge = λ k e _ h _ f. f;
    pair = λ k e _ h _ f. f;
    cite = λ k i h f. f;
    clear = λ k i h. le→leb _ _ (omega (arith, leb→le _ _ h, shrinks k i));
    node_prop = λ k i key v n h _ _ _ f. f;
    edge_prop = λ k i key v h f. f;
    excerpt = λ k x h f. f;
    evidence = λ k n _ _ h f. f;
  }

  fits-select : fits s (select s) ≡ true
  fits-select = select_inv s fits-IsKept (All-Anything s.nodes) (All-Anything s.edges) room

-- What is chosen fits the budget, or the budget leaves no room for more than an empty response,
-- which is then chosen.
pub chosen_fits :
    (s : Scope)
    → ClearShrinks s
    → (cost s (chosen s) ≤ s.token_budget)
      ⊎ ((chosen s ≡ nothing) × (s.token_budget ≤ cost s nothing))
unfolding chosen
chosen_fits s shrinks = elim (Bool-cases (fits s (everything s))) [
  | inl e ↦ rw e (inl (leb→le _ _ e))
  | inr e ↦ rw e (elim (Bool-cases (leb s.token_budget (cost s nothing))) [
    | inl f ↦ rw f (inr (refl, leb→le _ _ f))
    | inr f ↦ rw f (inl (leb→le _ _ (fits-select s shrinks (ground arith))))
  ])
]

-- Where clearing a node's properties never raises the measure, the measured response is within the
-- budget; otherwise the budget is at most what an empty response measures, and the response is that.
pub pack_context_fits :
    (py : Python) (g : Subgraph) (budget : ℕ) (seed_ids : List String) (measure : PackedContext → ℕ)
    (excerpts : List TextExcerpt)
    → ClearShrinks (scope_of py g budget seed_ids measure excerpts)
    → let packed = pack_context py g budget seed_ids measure excerpts in
      let empty = build (scope_of py g budget seed_ids measure excerpts) nothing in
      (measure packed ≤ budget) ⊎ ((packed ≡ empty) × (budget ≤ measure empty))
unfolding pack_context scope_of
pack_context_fits py g budget seed_ids measure excerpts shrinks =
    elim (chosen_fits (scope_of py g budget seed_ids measure excerpts) shrinks) [
      | inl fits ↦ inl fits
      | inr (empty, small) ↦
          inr (ap (build (scope_of py g budget seed_ids measure excerpts)) empty, small)
    ]
