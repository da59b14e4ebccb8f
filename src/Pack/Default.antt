-- ===== src/Pack/Default.antt =====
-- The measure that `pack_context` takes where none is given, `packed.token_estimate`.
use Prim.Native.String.{len}
use text.Mathlib.TextPositions.{len-append}
use grag.Base.{
  ℕ, zero, suc, ◌≤◌, String, ◌<>◌, List, [], ◌∷◌, ◌++◌, ◌≡◌, refl, inl, inr, map, arith,
}
use grag.Base.Dict.{lookup}
use grag.Base.Values.{Python}
use grag.Graph.{NodeRecord, Subgraph}
use grag.Pack.Render.{estimate_tokens, join, render_props, node_line, edge_line}
use grag.Pack.State.{TextExcerpt, PackedContext, set_props, build, modify, excerpt_line}
use grag.Pack.{scope_of, pack_context}
use grag.Pack.Budget.{ClearShrinks, chosen_fits}

abbrev pub default_measure : PackedContext → ℕ
default_measure packed = packed.token_estimate

abbrev Shorter : List String → List String → Type 0
Shorter [] [] = Unit
Shorter [] (q ∷ qs) = ⊥
Shorter (p ∷ ps) [] = ⊥
Shorter (p ∷ ps) (q ∷ qs) = (len p ≤ len q) × Shorter ps qs

Shorter-refl : (ps : List String) → Shorter ps ps
Shorter-refl [] = tt
Shorter-refl (p ∷ ps) = (omega arith, Shorter-refl ps)

len-join :
    (sep : String) (ps qs : List String) → Shorter ps qs → len (join sep ps) ≤ len (join sep qs)
unfolding join
len-join sep [] [] h = omega arith
len-join sep [] (q ∷ qs) h = elim h [ ]
len-join sep (p ∷ ps) [] h = elim h [ ]
len-join sep (p ∷ []) (q ∷ []) h = h.0
len-join sep (p ∷ []) (q ∷ q' ∷ qs) h = elim h.1 [ ]
len-join sep (p ∷ p' ∷ ps) (q ∷ []) h = elim h.1 [ ]
len-join sep (p ∷ p' ∷ ps) (q ∷ q' ∷ qs) h =
    omega (arith, len-append, len-join sep (p' ∷ ps) (q' ∷ qs) h.1, h.0)

module _ (py : Python) where
  node_line-clear : (n : NodeRecord) → node_line py (set_props n []) ≡ n.id <> ("" <> "")
  unfolding node_line render_props lookup
  node_line-clear n = refl

  len-id-le : (n : NodeRecord) → len n.id ≤ len (node_line py n)
  unfolding node_line
  len-id-le n = rw len-append (omega arith)

  len-node_line_clear :
      (n : NodeRecord) → len (node_line py (set_props n [])) ≤ len (node_line py n)
  len-node_line_clear n =
      rw (node_line-clear n, len-append, len-append) (omega (arith, len-id-le n))

  Shorter-modify :
      (i : ℕ) (ns : List NodeRecord) (rest : List String)
      → Shorter
          (map (node_line py) (modify i (λ n. set_props n []) ns) ++ rest)
          (map (node_line py) ns ++ rest)
  unfolding modify
  Shorter-modify i [] rest = Shorter-refl rest
  Shorter-modify zero (n ∷ ns) rest = (len-node_line_clear n, Shorter-refl _)
  Shorter-modify (suc i) (n ∷ ns) rest = (omega arith, Shorter-modify i ns rest)

pub default-ClearShrinks :
    (py : Python) (g : Subgraph) (budget : ℕ) (seed_ids : List String) (excerpts : List TextExcerpt)
    → ClearShrinks (scope_of py g budget seed_ids default_measure excerpts)
unfolding scope_of build estimate_tokens
default-ClearShrinks py g budget seed_ids excerpts k i =
    let h = len-join "\n" _ _ (
      Shorter-modify py i k.nodes
        (map (excerpt_line py) k.excerpts ++ map (edge_line py) k.edges)) in
    omega arith

-- With the default measure the packed context is within the budget, whatever the subgraph, the
-- seeds and the excerpts are.
pub pack_context-default_fits :
    (py : Python) (g : Subgraph) (budget : ℕ) (seed_ids : List String) (excerpts : List TextExcerpt)
    → (pack_context py g budget seed_ids default_measure excerpts).token_estimate ≤ budget
unfolding pack_context scope_of
pack_context-default_fits py g budget seed_ids excerpts =
    let s = scope_of py g budget seed_ids default_measure excerpts in
    elim (chosen_fits s (default-ClearShrinks py g budget seed_ids excerpts)) [
      | inl fits ↦ fits
      | inr (empty, _) ↦ rw empty (unfold build join estimate_tokens in omega arith)
    ]
