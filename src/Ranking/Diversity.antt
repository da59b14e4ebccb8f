-- ===== src/Ranking/Diversity.antt =====
-- `_diversify`: how many seeds are chosen, and of which labels.
use text.Mathlib.Text.{◌==◌}
use grag.Base.{
  ℕ, ◌+◌, ◌≤◌, ◌<◌, min, leb, String, List, [], ◌∷◌, ◌++◌, length, take, if◌then◌else◌, ◌≡◌, refl,
  ◌⊎◌, inl, inr, Bool-cases, arith, if_inv, leb→le, eq_iff, length-append,
}
use grag.Base.Dict.{lookup, lookup-insert}
use grag.Ranking.{ScoredNode, Choice, count_of, place, main_pass, backfill, diversify}

module _ {Score : Type 0} where
  -- The number of seeds of a label.
  unfoldable pub label_count : String → List (ScoredNode Score) → ℕ
  label_count label [] = 0
  label_count label (s ∷ ss) =
      let rest = label_count label ss in if s.node.label == label then rest + 1 else rest

  label_count-append :
      (label : String) (xs ys : List (ScoredNode Score))
      → label_count label (xs ++ ys) ≡ label_count label xs + label_count label ys
  unfolding label_count
  label_count-append label [] ys = omega arith
  label_count-append label (x ∷ xs) ys = ground (arith, label_count-append label xs ys)

  length-backfill :
      (top_k : ℕ) (held chosen : List (ScoredNode Score))
      → length chosen ≤ top_k
      → length (backfill top_k held chosen) ≡ min top_k (length chosen + length held)
  unfolding backfill
  length-backfill top_k [] chosen h = omega arith
  length-backfill top_k (s ∷ held) chosen h = elim (Bool-cases (leb top_k (length chosen))) [
    | inl e ↦ rw e (omega (arith, leb→le _ _ e))
    | inr e ↦ rw e (
        ground (
          arith,
          e,
          h,
          length-append chosen (s ∷ []),
          length-backfill top_k held (chosen ++ s ∷ []),
        ))
  ]

  -- What the main pass keeps: the counts are right, and no label has more than the cap.
  record IsFair (cap : ℕ) (c : Choice Score) : Type 0 where
    pub counted : (label : String) → count_of c.counts label ≡ label_count label c.chosen
    pub capped : (label : String) → label_count label c.chosen ≤ cap

  place-IsFair :
      (cap : ℕ) (s : ScoredNode Score) (c : Choice Score)
      → IsFair cap c
      → IsFair cap (place cap s c)
  unfolding place label_count
  place-IsFair cap s c f = elim (Bool-cases (leb cap (count_of c.counts s.node.label))) [
    | inl e ↦ rw (place, e) (record { counted = f.counted; capped = f.capped })
    | inr e ↦
        rw (place, e)
          (record {
            counted = λ label. ground (
              arith,
              f.counted label,
              lookup-insert s.node.label label (count_of c.counts s.node.label + 1) c.counts,
              label_count-append label c.chosen (s ∷ []),
              eq_iff s.node.label label,
            );
            capped = λ label. ground (
              arith,
              f.capped label,
              f.counted label,
              e,
              label_count-append label c.chosen (s ∷ []),
              eq_iff s.node.label label,
            );
          })
  ]

  -- What is known once `n` seeds have been placed, `count label` of them of each label.
  record Placed (top_k cap n : ℕ) (count : String → ℕ) (c : Choice Score) : Type 0 where
    pub fair : IsFair cap c
    pub within : length c.chosen ≤ top_k
    pub total : length c.chosen + length c.held ≡ n
    pub served : (label : String) → min cap (count label) ≤ label_count label c.chosen

  chosen-place :
      (cap : ℕ) (s : ScoredNode Score) (c : Choice Score)
      → (place cap s c).chosen
        ≡ (if leb cap (count_of c.counts s.node.label) then c.chosen else c.chosen ++ s ∷ [])
  unfolding place
  chosen-place cap s c = elim (Bool-cases (leb cap (count_of c.counts s.node.label))) [
    | inl e ↦ rw (place, e) refl
    | inr e ↦ rw (place, e) refl
  ]

  held-place :
      (cap : ℕ) (s : ScoredNode Score) (c : Choice Score)
      → (place cap s c).held
        ≡ (if leb cap (count_of c.counts s.node.label) then c.held ++ s ∷ [] else c.held)
  unfolding place
  held-place cap s c = elim (Bool-cases (leb cap (count_of c.counts s.node.label))) [
    | inl e ↦ rw (place, e) refl
    | inr e ↦ rw (place, e) refl
  ]

  place-Placed :
      (top_k cap n : ℕ) (count : String → ℕ) (s : ScoredNode Score) (c : Choice Score)
      → Placed top_k cap n count c
      → length c.chosen < top_k
      → Placed top_k cap (n + 1) (λ label. count label + label_count label (s ∷ [])) (place cap s c)
  unfolding label_count
  place-Placed top_k cap n count s c p room = record {
    fair = place-IsFair cap s c p.fair;
    within = ground (arith, chosen-place cap s c, length-append c.chosen (s ∷ []), p.within, room);
    total = ground (
      arith,
      chosen-place cap s c,
      held-place cap s c,
      length-append c.chosen (s ∷ []),
      length-append c.held (s ∷ []),
      p.total,
    );
    served = λ label. ground (
      arith,
      chosen-place cap s c,
      label_count-append label c.chosen (s ∷ []),
      p.served label,
      p.fair.counted label,
      eq_iff s.node.label label,
    );
  }

  -- The pass ends with `top_k` seeds chosen, or has placed all.
  abbrev Ends : ℕ → ℕ → ℕ → (String → ℕ) → List (ScoredNode Score) → Choice Score → Type 0
  Ends top_k cap n count fused after =
      IsFair cap after
      × (length after.chosen ≤ top_k)
      × (((top_k ≤ length after.chosen) × (length after.chosen ≤ n + length fused))
          ⊎ ((length after.chosen + length after.held ≡ n + length fused)
              × ((label : String)
                  → min cap (count label + label_count label fused)
                    ≤ label_count label after.chosen)))

  Ends-cons :
      (top_k cap n : ℕ) (count : String → ℕ) (s : ScoredNode Score)
      (fused : List (ScoredNode Score)) (after : Choice Score)
      → Ends top_k cap (n + 1) (λ label. count label + label_count label (s ∷ [])) fused after
      → Ends top_k cap n count (s ∷ fused) after
  unfolding label_count
  Ends-cons top_k cap n count s fused after (fair, within, inl (full, le)) =
      (fair, within, inl (full, omega arith))
  Ends-cons top_k cap n count s fused after (fair, within, inr (total, served)) =
      (fair, within, inr (omega arith, λ label. ground (arith, served label)))

  main_pass-end :
      (top_k cap n : ℕ) (count : String → ℕ) (fused : List (ScoredNode Score)) (c : Choice Score)
      → Placed top_k cap n count c
      → Ends top_k cap n count fused (main_pass top_k cap fused c)
  unfolding main_pass label_count
  main_pass-end top_k cap n count [] c p =
      (p.fair, p.within, inr (omega (arith, p.total), λ label. ground (arith, p.served label)))
  main_pass-end top_k cap n count (s ∷ fused) c p =
      if_inv (Ends top_k cap n count (s ∷ fused)) (leb top_k (length c.chosen)) c
        (main_pass top_k cap fused (place cap s c))
        (λ e. (p.fair, p.within, inl (leb→le _ _ e, omega (arith, p.total))))
        (λ e. Ends-cons top_k cap n count s fused (main_pass top_k cap fused (place cap s c)) (
          main_pass-end top_k cap (n + 1) (λ label. count label + label_count label (s ∷ [])) fused
            (place cap s c) (place-Placed top_k cap n count s c p (ground (arith, e)))))

  label_count-backfill :
      (label : String) (top_k : ℕ) (held chosen : List (ScoredNode Score))
      → label_count label chosen ≤ label_count label (backfill top_k held chosen)
  unfolding backfill
  label_count-backfill label top_k [] chosen = omega arith
  label_count-backfill label top_k (s ∷ held) chosen =
      if_inv (λ xs. label_count label chosen ≤ label_count label xs) (leb top_k (length chosen))
        chosen (backfill top_k held (chosen ++ s ∷ [])) (λ _. omega arith)
        (λ _. omega (
          arith,
          label_count-backfill label top_k held (chosen ++ s ∷ []),
          label_count-append label chosen (s ∷ []),
        ))

  backfill-full :
      (top_k : ℕ) (held chosen : List (ScoredNode Score))
      → top_k ≤ length chosen
      → backfill top_k held chosen ≡ chosen
  unfolding backfill
  backfill-full top_k [] chosen h = refl
  backfill-full top_k (s ∷ held) chosen h = ground arith

  -- `_diversify` with a positive cap chooses as many seeds as there can be, `top_k` or all of the
  -- candidates. Either no label has more seeds than the cap, or the cap shuts no label out: each
  -- label has the cap's number of seeds, or as many as it has candidates.
  pub diversify-fair :
      (fused : List (ScoredNode Score)) (top_k cap : ℕ)
      → 1 ≤ cap
      → (length (diversify fused top_k cap) ≡ min top_k (length fused))
        × (((label : String) → label_count label (diversify fused top_k cap) ≤ cap)
            ⊎ ((label : String)
                → min cap (label_count label fused)
                  ≤ label_count label (diversify fused top_k cap)))
  unfolding diversify lookup label_count
  diversify-fair fused top_k cap h =
      let c = main_pass top_k cap fused (record { chosen = []; held = []; counts = [] }) in
      let end : Ends top_k cap 0 (λ _. 0) fused c =
        main_pass-end top_k cap 0 (λ _. 0) fused (record { chosen = []; held = []; counts = [] })
          start_placed in
      if_inv
        (λ xs.
          (length xs ≡ min top_k (length fused))
          × (((label : String) → label_count label xs ≤ cap)
              ⊎ ((label : String) → min cap (label_count label fused) ≤ label_count label xs)))
        (leb cap 0) (take top_k fused) (backfill top_k c.held c.chosen)
        (λ e. absurd (ground (arith, e, h)))
        (λ _. elim end.2 [
          | inl (full, le) ↦
              rw (backfill-full top_k c.held c.chosen full) (omega arith, inl (end.0).capped)
          | inr (total, served) ↦ (
            omega (arith, length-backfill top_k c.held c.chosen end.1),
            inr (λ label.
                omega (arith, served label, label_count-backfill label top_k c.held c.chosen)),
          )
        ])
    where
      start_placed : Placed top_k cap 0 (λ _. 0) (record { chosen = []; held = []; counts = [] })
      start_placed = record {
        fair = record { counted = λ label. refl; capped = λ label. omega arith };
        within = omega arith;
        total = omega arith;
        served = λ label. omega arith;
      }
