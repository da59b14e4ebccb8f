-- ===== src/Retrieval/Loops.antt =====
-- The two loops of `attach_metadata`: what they take out, and that they had to. Both lists have the
-- entry that goes first at their head.
use grag.Base.{
  ℕ, zero, suc, ◌+◌, ◌≤◌, ◌<◌, ltb, String, List, [], ◌∷◌, length, drop, if_inv, ◌≡◌, refl, ap, ◌∙◌,
  arith, ◌⊎◌, inl, inr,
}
use mathlib.Core.Path.{subst}
use grag.Retrieval.{Metadata, drop_hits, drop_unknowns}

-- The metadata without the first so many label counts and the first so many unknown labels: what is
-- left is as it was given, and the others are counted.
abbrev pub without : List (String × ℕ) → ℕ → List String → ℕ → ℕ → Metadata
without counts omitted unknowns k j = record {
  hits = drop k counts;
  omitted = omitted + k;
  unknowns = drop j unknowns;
  unknown_omitted = j;
}

-- A predicate on each number below one
abbrev pub AllBelow : ℕ → (ℕ → Type 0) → Type 0
AllBelow zero P = Unit
AllBelow (suc n) P = AllBelow n P × P n

AllBelow-suc :
    (n : ℕ) (P Q : ℕ → Type 0)
    → ((i : ℕ) → Q i → P (suc i))
    → P 0
    → AllBelow n Q
    → AllBelow (suc n) P
AllBelow-suc zero P Q f first h = (tt, first)
AllBelow-suc (suc n) P Q f first (h, last) = (AllBelow-suc n P Q f first h, f n last)

pub AllBelow-none : (n : ℕ) (P : ℕ → Type 0) → ¬ P 0 → AllBelow n P → n ≡ 0
AllBelow-none zero P f h = refl
AllBelow-none (suc zero) P f h = absurd (f h.1)
AllBelow-none (suc (suc n)) P f h = absurd (zero-ne-suc n (AllBelow-none (suc n) P f h.0))
  where
    zero-ne-suc : (n : ℕ) → suc n ≡ 0 → ⊥
    zero-ne-suc n e = omega (arith, e)

pub AllBelow-map : (n : ℕ) (P Q : ℕ → Type 0) → ((i : ℕ) → P i → Q i) → AllBelow n P → AllBelow n Q
AllBelow-map zero P Q f h = tt
AllBelow-map (suc n) P Q f (h, last) = (AllBelow-map n P Q f h, f n last)

pub drop-length {ℓ} : {A : Type ℓ} (xs : List A) → drop (length xs) xs ≡ []
drop-length [] = refl
drop-length (x ∷ xs) = drop-length xs

without-suc :
    (h : String × ℕ) (hits : List (String × ℕ)) (omitted : ℕ) (unknowns : List String) (k : ℕ)
    → without hits (omitted + 1) unknowns k 0 ≡ without (h ∷ hits) omitted unknowns (suc k) 0
without-suc h hits omitted unknowns k =
    let same : omitted + 1 + k ≡ omitted + suc k = omega arith in
    ap (λ (n : ℕ). record (without hits omitted unknowns k 0) { omitted = n }) same

without-none :
    (hits : List (String × ℕ)) (omitted : ℕ) (unknowns : List String) (j : ℕ)
    → record { hits = hits; omitted = omitted; unknowns = drop j unknowns; unknown_omitted = j }
      ≡ without hits omitted unknowns 0 j
without-none hits omitted unknowns j =
    let same : omitted ≡ omitted + 0 = omega arith in
    ap (λ (n : ℕ). record (without hits omitted unknowns 0 j) { omitted = n }) same

-- Without so many more labels where some are gone.
abbrev pub fewer : List (String × ℕ) → ℕ → List String → ℕ → ℕ → Metadata
fewer hits omitted unknowns dropped j = record {
  hits = hits;
  omitted = omitted;
  unknowns = drop j unknowns;
  unknown_omitted = dropped + j;
}

fewer-none :
    (hits : List (String × ℕ)) (omitted : ℕ) (unknowns : List String) (dropped : ℕ)
    → record { hits = hits; omitted = omitted; unknowns = unknowns; unknown_omitted = dropped }
      ≡ fewer hits omitted unknowns dropped 0
fewer-none hits omitted unknowns dropped =
    let same : dropped ≡ dropped + 0 = omega arith in
    ap (λ (n : ℕ). record (fewer hits omitted unknowns dropped 0) { unknown_omitted = n }) same

fewer-suc :
    (hits : List (String × ℕ)) (omitted : ℕ) (u : String) (unknowns : List String) (dropped j : ℕ)
    → fewer hits omitted unknowns (dropped + 1) j
      ≡ fewer hits omitted (u ∷ unknowns) dropped (suc j)
fewer-suc hits omitted u unknowns dropped j =
    let same : dropped + 1 + j ≡ dropped + suc j = omega arith in
    ap (λ (n : ℕ). record (fewer hits omitted unknowns dropped j) { unknown_omitted = n }) same

pub fewer-all :
    (hits : List (String × ℕ)) (omitted : ℕ) (unknowns : List String) (k j : ℕ)
    → fewer (drop k hits) (omitted + k) unknowns 0 j ≡ without hits omitted unknowns k j
fewer-all hits omitted unknowns k j =
    let same : 0 + j ≡ j = omega arith in
    ap (λ (n : ℕ). record (without hits omitted unknowns k j) { unknown_omitted = n }) same

module _ (measured : Metadata → ℕ) (budget : ℕ) where
  -- What the first loop does from a number of omitted labels.
  pub record Dropped (hits : List (String × ℕ)) (omitted : ℕ) (unknowns : List String)
      (m : Metadata) : Type 0 where
    pub gone : ℕ
    pub some_gone : gone ≤ length hits
    pub same : m ≡ without hits omitted unknowns gone 0
    pub needed : AllBelow gone (λ k. budget < measured (without hits omitted unknowns k 0))
    pub ends : (measured m ≤ budget) ⊎ (gone ≡ length hits)

  pub drop_hits-Dropped :
      (hits : List (String × ℕ)) (omitted : ℕ) (unknowns : List String)
      → Dropped hits omitted unknowns (drop_hits measured budget hits omitted unknowns)
  unfolding drop_hits
  drop_hits-Dropped [] omitted unknowns = record {
    gone = 0;
    some_gone = omega arith;
    same = without-none [] omitted unknowns 0;
    needed = tt;
    ends = inr refl;
  }
  drop_hits-Dropped (h ∷ hits) omitted unknowns =
      let start = without-none (h ∷ hits) omitted unknowns 0 in
      let i = drop_hits-Dropped hits (omitted + 1) unknowns in
      if_inv (Dropped (h ∷ hits) omitted unknowns) (ltb budget (measured _))
        (drop_hits measured budget hits (omitted + 1) unknowns) _
        (λ t. record {
          gone = suc i.gone;
          some_gone = omega (arith, i.some_gone);
          same = i.same ∙ without-suc h hits omitted unknowns i.gone;
          needed =
              AllBelow-suc i.gone _ _
                (λ k over.
                  subst (λ m. budget < measured m) (without-suc h hits omitted unknowns k) over)
                (subst (λ m. budget < measured m) start (ground (arith, t))) i.needed;
          ends = elim i.ends [ inl f ↦ inl f | inr e ↦ inr (ap suc e) ];
        })
        (λ t. record {
          gone = 0;
          some_gone = omega arith;
          same = start;
          needed = tt;
          ends = inl (ground (arith, t));
        })

  -- What the second loop does.
  pub record Shortened (hits : List (String × ℕ)) (omitted : ℕ) (unknowns : List String)
      (dropped : ℕ) (m : Metadata) : Type 0 where
    pub gone : ℕ
    pub some_gone : gone ≤ length unknowns
    pub same : m ≡ fewer hits omitted unknowns dropped gone
    pub needed : AllBelow gone (λ j. budget < measured (fewer hits omitted unknowns dropped j))
    pub ends : (measured m ≤ budget) ⊎ (gone ≡ length unknowns)

  pub drop_unknowns-Shortened :
      (hits : List (String × ℕ)) (omitted : ℕ) (unknowns : List String) (dropped : ℕ)
      → Shortened hits omitted unknowns dropped
          (drop_unknowns measured budget hits omitted unknowns dropped)
  unfolding drop_unknowns
  drop_unknowns-Shortened hits omitted [] dropped = record {
    gone = 0;
    some_gone = omega arith;
    same = fewer-none hits omitted [] dropped;
    needed = tt;
    ends = inr refl;
  }
  drop_unknowns-Shortened hits omitted (u ∷ unknowns) dropped =
      let start = fewer-none hits omitted (u ∷ unknowns) dropped in
      let i = drop_unknowns-Shortened hits omitted unknowns (dropped + 1) in
      if_inv (Shortened hits omitted (u ∷ unknowns) dropped) (ltb budget (measured _))
        (drop_unknowns measured budget hits omitted unknowns (dropped + 1)) _
        (λ t. record {
          gone = suc i.gone;
          some_gone = omega (arith, i.some_gone);
          same = i.same ∙ fewer-suc hits omitted u unknowns dropped i.gone;
          needed =
              AllBelow-suc i.gone _ _
                (λ j over.
                  subst (λ m. budget < measured m) (fewer-suc hits omitted u unknowns dropped j)
                    over)
                (subst (λ m. budget < measured m) start (ground (arith, t))) i.needed;
          ends = elim i.ends [ inl f ↦ inl f | inr e ↦ inr (ap suc e) ];
        })
        (λ t. record {
          gone = 0;
          some_gone = omega arith;
          same = start;
          needed = tt;
          ends = inl (ground (arith, t));
        })
