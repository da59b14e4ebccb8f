-- ===== src/Ranking/Seeds.antt =====
-- `_seed_refs` of src/grag/retrieval/search.py: the keys from which the search expands.
use text.Mathlib.Text.{◌==◌}
use grag.Base.{
  String, List, [], ◌∷◌, Option, none, some, Bool, true, false, ◌&&◌, ◌||◌, if◌then◌else◌, ◌≡◌, ◌≢◌,
  refl, sym, ◌∙◌, Option-cases, Bool-cases, inl, inr, arith, eq_iff,
}
use grag.Base.Dict.{Dict, lookup}
use grag.Base.Values.{Value, get, is_null}
use grag.Ranking.{ScoredNode}

abbrev pub Ref : Type 0
Ref = String × Value

-- `(label, str(key)) in seen`
unfoldable pub is_seen : String → String → List (String × String) → Bool
is_seen label key [] = false
is_seen label key ((l, k) ∷ seen) = (l == label && k == key) || is_seen label key seen

some_inj : {a b : Value} → some a ≡ some b → a ≡ b
some_inj h = cc

none_ne : {v : Value} → none ≢ some v
none_ne h = cc

module _ (format : Value → String) where
  -- No reference is seen before, and none stands there twice.
  abbrev pub AllUnseen : List (String × String) → List Ref → Type 0
  AllUnseen seen [] = Unit
  AllUnseen seen ((label, key) ∷ refs) =
      (is_seen label (format key) seen ≡ false) × AllUnseen ((label, format key) ∷ seen) refs

  unfoldable pub is_among : String → String → List Ref → Bool
  is_among label key [] = false
  is_among label key ((l, v) ∷ refs) = (l == label && format v == key) || is_among label key refs

module _ {Score : Type 0} (format : Value → String) (pk : Dict String) where
  -- The key of a seed, where its table has a primary key and the seed has a value for it.
  unfoldable pub seed_key : ScoredNode Score → Option Value
  seed_key s = elim (lookup s.node.label pk) [
    | none ↦ none
    | some p ↦
        if p == "" || is_null (get s.node.properties p)
        then none
        else some (get s.node.properties p)
  ]

  unfoldable pub refs_beyond : List (String × String) → List (ScoredNode Score) → List Ref
  refs_beyond seen [] = []
  refs_beyond seen (s ∷ seeds) = elim (seed_key s) [
    | none ↦ refs_beyond seen seeds
    | some key ↦ elim (is_seen s.node.label (format key) seen) [
      | true ↦ refs_beyond seen seeds
      | false ↦ (s.node.label, key) ∷ refs_beyond ((s.node.label, format key) ∷ seen) seeds
    ]
  ]

  unfoldable pub seed_refs : List (ScoredNode Score) → List Ref
  seed_refs seeds = refs_beyond [] seeds

  -- Each seed that has a key.
  abbrev pub AllAmong : List (ScoredNode Score) → (String → String → Bool) → Type 0
  AllAmong [] among = Unit
  AllAmong (s ∷ seeds) among =
      ((key : Value) → seed_key s ≡ some key → among s.node.label (format key) ≡ true)
      × AllAmong seeds among

  AllAmong-weaken :
      (seeds : List (ScoredNode Score)) (f g : String → String → Bool)
      → ((l k : String) → f l k ≡ true → g l k ≡ true)
      → AllAmong seeds f
      → AllAmong seeds g
  AllAmong-weaken [] f g h a = tt
  AllAmong-weaken (s ∷ seeds) f g h (a, more) =
      (λ key e. h s.node.label (format key) (a key e), AllAmong-weaken seeds f g h more)

  abbrev Covered : List (String × String) → List (ScoredNode Score) → List Ref → Type 0
  Covered seen seeds refs =
      AllUnseen format seen refs
      × AllAmong seeds (λ l k. is_among format l k refs || is_seen l k seen)

  Covered-without :
      (seen : List (String × String)) (s : ScoredNode Score) (seeds : List (ScoredNode Score))
      (refs : List Ref)
      → ((key : Value) → seed_key s ≡ some key → is_seen s.node.label (format key) seen ≡ true)
      → Covered seen seeds refs
      → Covered seen (s ∷ seeds) refs
  Covered-without seen s seeds refs h (u, a) = (u, (λ key e. ground (arith, h key e), a))

  Covered-with :
      (seen : List (String × String)) (s : ScoredNode Score) (seeds : List (ScoredNode Score))
      (refs : List Ref) (key : Value)
      → seed_key s ≡ some key
      → is_seen s.node.label (format key) seen ≡ false
      → Covered ((s.node.label, format key) ∷ seen) seeds refs
      → Covered seen (s ∷ seeds) ((s.node.label, key) ∷ refs)
  unfolding is_among is_seen
  Covered-with seen s seeds refs key e new (u, a) = (
    (new, u),
    (
      λ other t.
          rw⁻¹ (some_inj (sym e ∙ t))
            (ground (arith, eq_iff s.node.label s.node.label, eq_iff (format key) (format key))),
      AllAmong-weaken seeds
          (λ l k. is_among format l k refs || is_seen l k ((s.node.label, format key) ∷ seen))
          (λ l k. is_among format l k ((s.node.label, key) ∷ refs) || is_seen l k seen)
          (λ l k t. ground (arith, t)) a,
    ),
  )

  refs_beyond_nil :
      (seen : List (String × String)) (seeds : List (ScoredNode Score))
      → seeds ≡ []
      → refs_beyond seen seeds ≡ []
  unfolding refs_beyond
  refs_beyond_nil seen seeds e = rw e refl

  refs_beyond-none :
      (seen : List (String × String)) (s : ScoredNode Score) (seeds : List (ScoredNode Score))
      → seed_key s ≡ none
      → refs_beyond seen (s ∷ seeds) ≡ refs_beyond seen seeds
  unfolding refs_beyond
  refs_beyond-none seen s seeds e = rw (refs_beyond, e) refl

  refs_beyond-some :
      (seen : List (String × String)) (s : ScoredNode Score) (seeds : List (ScoredNode Score))
      (key : Value) (b : Bool)
      → seed_key s ≡ some key
      → is_seen s.node.label (format key) seen ≡ b
      → refs_beyond seen (s ∷ seeds) ≡ (
          if b
          then refs_beyond seen seeds
          else (s.node.label, key) ∷ refs_beyond ((s.node.label, format key) ∷ seen) seeds)
  unfolding refs_beyond
  refs_beyond-some seen s seeds key true e t = rw (refs_beyond, e, t) refl
  refs_beyond-some seen s seeds key false e t = rw (refs_beyond, e, t) refl

  refs_beyond-Covered :
      (seen : List (String × String)) (seeds : List (ScoredNode Score))
      → Covered seen seeds (refs_beyond seen seeds)
  refs_beyond-Covered seen [] = rw (refs_beyond_nil seen [] refl) (tt, tt)
  refs_beyond-Covered seen (s ∷ seeds) = elim (Option-cases (seed_key s)) [
    | inl e ↦ rw (refs_beyond-none seen s seeds e) (
        Covered-without seen s seeds (refs_beyond seen seeds)
          (λ key t. absurd (none_ne (sym e ∙ t))) (refs_beyond-Covered seen seeds))
    | inr (key, e) ↦ elim (Bool-cases (is_seen s.node.label (format key) seen)) [
      | inl b ↦ rw (refs_beyond-some seen s seeds key true e b) (
          Covered-without seen s seeds (refs_beyond seen seeds)
            (λ other t. rw⁻¹ (some_inj (sym e ∙ t)) b) (refs_beyond-Covered seen seeds))
      | inr b ↦ rw (refs_beyond-some seen s seeds key false e b) (
          Covered-with seen s seeds (refs_beyond ((s.node.label, format key) ∷ seen) seeds) key e b
            (refs_beyond-Covered ((s.node.label, format key) ∷ seen) seeds))
    ]
  ]

  -- The references are all different as pairs of a label and the text of a key, and each seed whose
  -- table has a primary key, and which has a value for it, has its own among them.
  pub seed_refs-distinct :
      (seeds : List (ScoredNode Score))
      → AllUnseen format [] (seed_refs seeds)
        × AllAmong seeds (λ l k. is_among format l k (seed_refs seeds))
  unfolding seed_refs is_seen
  seed_refs-distinct seeds =
      let (u, a) = refs_beyond-Covered [] seeds in
      (
        u,
        AllAmong-weaken seeds (λ l k. is_among format l k (refs_beyond [] seeds) || is_seen l k [])
            (λ l k. is_among format l k (refs_beyond [] seeds)) (λ l k t. ground (arith, t)) a,
      )
