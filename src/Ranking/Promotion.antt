-- ===== src/Ranking/Promotion.antt =====
-- `_promote_exact_identifiers`: the candidates beyond the window, and those of each kind within it.
use grag.Base.{
  ℕ, min, leb, leb→le, Bool-cases, suc, zero, ◌+◌, ◌≤◌, String, List, [], ◌∷◌, ◌++◌, length, take,
  drop, keep, is_empty, Bool, true, false, not, if◌then◌else◌, ◌≡◌, ◌⊎◌, inl, inr, refl, sym, ap,
  ◌∙◌, arith, All, keep-All, if_inv, take-append-drop, length-append, length-take,
}
use grag.Base.Dict.{contains}
use grag.Base.Values.{Value, get}
use grag.Ranking.{ScoredNode, name_matches, is_exact, exact_match_window, promote_exact_identifiers}

module _ {A : Type 0} where
  keep-append : (p : A → Bool) (xs ys : List A) → keep p (xs ++ ys) ≡ keep p xs ++ keep p ys
  keep-append p [] ys = refl
  keep-append p (x ∷ xs) ys = ground (arith, keep-append p xs ys)

  keep-keep : (p : A → Bool) (xs : List A) → keep p (keep p xs) ≡ keep p xs
  keep-keep p [] = refl
  keep-keep p (x ∷ xs) = ground (arith, keep-keep p xs)

  keep-keep-not : (p : A → Bool) (xs : List A) → keep p (keep (λ x. not (p x)) xs) ≡ []
  keep-keep-not p [] = refl
  keep-keep-not p (x ∷ xs) = ground (arith, keep-keep-not p xs)

  -- Any test passes as many elements when a list is parted by another test.
  length-keep_parted :
      (q p : A → Bool) (xs : List A)
      → length (keep q (keep p xs)) + length (keep q (keep (λ x. not (p x)) xs))
        ≡ length (keep q xs)
  length-keep_parted q p [] = omega arith
  length-keep_parted q p (x ∷ xs) = ground (arith, length-keep_parted q p xs)

  keep_none : (p : A → Bool) → ((x : A) → p x ≡ false) → (xs : List A) → keep p xs ≡ []
  keep_none p h [] = refl
  keep_none p h (x ∷ xs) = ground (arith, keep_none p h xs, h x)

  drop-append :
      (n : ℕ) (xs ys : List A)
      → length xs ≤ n
      → (length xs ≡ n) ⊎ (ys ≡ [])
      → drop n (xs ++ ys) ≡ ys
  drop-append zero [] ys h e = refl
  drop-append zero (x ∷ xs) ys h e = absurd (omega arith)
  drop-append (suc n) [] ys h e = ground arith
  drop-append (suc n) (x ∷ xs) ys h e = drop-append n xs ys (omega arith) (ground arith)

  drop-nil : (n : ℕ) (xs : List A) → length xs ≤ n → drop n xs ≡ []
  drop-nil zero [] h = refl
  drop-nil zero (x ∷ xs) h = absurd (omega arith)
  drop-nil (suc n) [] h = refl
  drop-nil (suc n) (x ∷ xs) h = drop-nil n xs (omega arith)

  take-length_append : (xs ys : List A) → take (length xs) (xs ++ ys) ≡ xs
  take-length_append [] ys = refl
  take-length_append (x ∷ xs) ys = ap (λ l. x ∷ l) (take-length_append xs ys)

  append_assoc : (xs ys zs : List A) → (xs ++ ys) ++ zs ≡ xs ++ (ys ++ zs)
  append_assoc [] ys zs = refl
  append_assoc (x ∷ xs) ys zs = ap (λ l. x ∷ l) (append_assoc xs ys zs)

  append-nil : (xs : List A) → xs ++ [] ≡ xs
  append-nil [] = refl
  append-nil (x ∷ xs) = ap (λ l. x ∷ l) (append-nil xs)

  keep-not-keep : (p : A → Bool) (xs : List A) → keep (λ x. not (p x)) (keep p xs) ≡ []
  keep-not-keep p [] = refl
  keep-not-keep p (x ∷ xs) = ground (arith, keep-not-keep p xs)

  -- The front of `xs`, in a window of `n`, after what passes the test is moved to its start.
  abbrev moved : (A → Bool) → ℕ → List A → List A
  moved p n xs = keep p (take n xs) ++ keep (λ x. not (p x)) (take n xs) ++ drop n xs

  keep_halves :
      (p : A → Bool) (n : ℕ) (xs : List A) → keep p (take n xs) ++ keep p (drop n xs) ≡ keep p xs
  keep_halves p n xs =
      sym (keep-append p (take n xs) (drop n xs)) ∙ ap (keep p) (take-append-drop n xs)

  length-parted :
      (p : A → Bool) (xs : List A)
      → length (keep p xs) + length (keep (λ x. not (p x)) xs) ≡ length xs
  length-parted p [] = omega arith
  length-parted p (x ∷ xs) = ground (arith, length-parted p xs)

  drop-moved : (p : A → Bool) (n : ℕ) (xs : List A) → drop n (moved p n xs) ≡ drop n xs
  drop-moved p n xs =
      let head = take n xs in
      let rest = keep (λ x. not (p x)) head in
      let size : length (keep p head ++ rest) ≡ min n (length xs) =
        omega (arith, length-append (keep p head) rest, length-parted p head, length-take n xs) in
      drop-append n (keep p head ++ rest) (drop n xs) (omega (arith, size))
        (elim (Bool-cases (leb n (length xs))) [
          | inl e ↦ inl (omega (arith, size, leb→le _ _ e))
          | inr e ↦ inr (drop-nil n xs (ground (arith, e)))
        ])

  -- `p`'s elements lead the window, nothing beyond it moves, and both kinds keep their order.
  abbrev pub Promoted : (A → Bool) → ℕ → List A → List A → Type 0
  Promoted p n xs ys =
      All (λ x. p x ≡ true) (take (length (keep p (take n xs))) ys)
      × (drop n ys ≡ drop n xs)
      × (keep p ys ≡ keep p xs)
      × (keep (λ x. not (p x)) ys ≡ keep (λ x. not (p x)) xs)

  Promoted-self :
      (p : A → Bool) (n : ℕ) (xs : List A) → keep p (take n xs) ≡ [] → Promoted p n xs xs
  Promoted-self p n xs h = (rw h tt, refl, refl, refl)

  Promoted-moved : (p : A → Bool) (n : ℕ) (xs : List A) → Promoted p n xs (moved p n xs)
  Promoted-moved p n xs =
      let head = take n xs in
      let exact = keep p head in
      let rest = keep (λ x. not (p x)) head in
      let tail = drop n xs in
      (
        rw (append_assoc exact rest tail, take-length_append exact (rest ++ tail))
            (keep-All p head),
        drop-moved p n xs,
        simp (
          keep-append p (exact ++ rest) tail,
          keep-append p exact rest,
          keep-keep p head,
          keep-keep-not p head,
          append-nil,
          keep_halves p n xs,
        ),
        simp (
          keep-append (λ x. not (p x)) (exact ++ rest) tail,
          keep-append (λ x. not (p x)) exact rest,
          keep-not-keep p head,
          keep-keep (λ x. not (p x)) head,
          keep_halves (λ x. not (p x)) n xs,
        ),
      )

never : {Score : Type 0} (s : ScoredNode Score) → is_exact [] s ≡ false
unfolding is_exact contains
never s = no_match (get s.node.properties "name")
  where
    no_match : (v : Value) → name_matches [] v ≡ false
    no_match (Value.str x) = refl
    no_match Value.null = refl
    no_match (Value.flag b) = refl
    no_match (Value.int n) = refl
    no_match (Value.negative n) = refl
    no_match (Value.other b x) = refl

-- The exact matches among the first `exact_match_window` candidates come first, no candidate beyond
-- the window moves, and the exact matches keep their order, as do the other candidates. Without
-- identifier tokens no candidate is exact.
pub promote_exact_identifiers-Promoted :
    {Score : Type 0} (tokens : List String) (fused : List (ScoredNode Score))
    → Promoted (is_exact tokens) exact_match_window fused (promote_exact_identifiers tokens fused)
unfolding promote_exact_identifiers
promote_exact_identifiers-Promoted {Score} tokens fused =
    let exact = keep (is_exact tokens) (take exact_match_window fused) in
    let P : List (ScoredNode Score) → Type 0 =
      Promoted (is_exact tokens) exact_match_window fused in
    if_inv P (is_empty tokens) fused
      (if is_empty exact then fused else moved (is_exact tokens) exact_match_window fused)
      (λ e.
        Promoted-self (is_exact tokens) exact_match_window fused
          (no_tokens tokens e (take exact_match_window fused)))
      (λ _.
        if_inv P (is_empty exact) fused (moved (is_exact tokens) exact_match_window fused)
          (λ e. Promoted-self (is_exact tokens) exact_match_window fused (nil_of_empty exact e))
          (λ _. Promoted-moved (is_exact tokens) exact_match_window fused))
  where
    nil_of_empty : {A : Type 0} (xs : List A) → is_empty xs ≡ true → xs ≡ []
    nil_of_empty [] e = refl
    nil_of_empty (x ∷ xs) e = absurd cc

    no_tokens :
        {Score : Type 0} (tokens : List String)
        → is_empty tokens ≡ true
        → (xs : List (ScoredNode Score)) → keep (is_exact tokens) xs ≡ []
    no_tokens [] e xs = keep_none (is_exact []) never xs
    no_tokens (t ∷ ts) e xs = absurd cc
