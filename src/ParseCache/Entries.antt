-- ===== src/ParseCache/Entries.antt =====
-- The entries as a dict: each key once, and the sum of their sizes.
use grag.Base.{ℕ, ◌+◌, [], ◌∷◌, ◌++◌, length, none, some, if◌then◌else◌, ◌≡◌, refl, arith, eq_iff}
use grag.ParseCache.{Key, key_eq, Entry, Items, find, pop}

module _ {M : Type 0} where
  abbrev pub total : Items M → ℕ
  total [] = 0
  total ((k, e) ∷ items) = e.size + total items

  abbrev pub Distinct : Items M → Type 0
  Distinct [] = Unit
  Distinct ((k, e) ∷ items) = (find k items ≡ none) × Distinct items

  pub total-append : (xs ys : Items M) → total (xs ++ ys) ≡ total xs + total ys
  total-append [] ys = omega arith
  total-append (x ∷ xs) ys = omega (arith, total-append xs ys)

  pub find-append :
      (key : Key) (xs ys : Items M)
      → find key (xs ++ ys) ≡ elim (find key xs) [ none ↦ find key ys | some e ↦ some e ]
  unfolding find
  find-append key [] ys = refl
  find-append key ((k, e) ∷ xs) ys = ground (arith, find-append key xs ys)

  -- What `pop` takes away.
  pub total-pop :
      (key : Key) (e : Entry M) (items : Items M)
      → find key items ≡ some e
      → total (pop key items) + e.size ≡ total items
  unfolding find pop
  total-pop key e [] h = absurd cc
  total-pop key e ((k, f) ∷ items) h = ground (arith, total-pop key e items, h)

  pub length-pop :
      (key : Key) (e : Entry M) (items : Items M)
      → find key items ≡ some e
      → length (pop key items) + 1 ≡ length items
  unfolding find pop
  length-pop key e [] h = absurd cc
  length-pop key e ((k, f) ∷ items) h = ground (arith, length-pop key e items, h)

  pub find-pop :
      (key j : Key) (items : Items M)
      → Distinct items
      → find j (pop key items) ≡ (if key_eq key j then none else find j items)
  unfolding find pop
  find-pop key j [] d = ground arith
  find-pop key j ((k, f) ∷ items) (new, d) = ground (
    arith,
    find-pop key j items d,
    eq_iff k.0 key.0,
    eq_iff k.1 key.1,
    eq_iff k.0 j.0,
    eq_iff k.1 j.1,
    eq_iff key.0 j.0,
    eq_iff key.1 j.1,
    new,
  )

  pub pop-Distinct : (key : Key) (items : Items M) → Distinct items → Distinct (pop key items)
  unfolding pop
  pop-Distinct key [] d = tt
  pop-Distinct key ((k, f) ∷ items) (new, d) =
      ground (arith, pop-Distinct key items d, find-pop key k items d, new)

  pub append-Distinct :
      (items : Items M) (key : Key) (e : Entry M)
      → Distinct items
      → find key items ≡ none
      → Distinct (items ++ (key, e) ∷ [])
  unfolding find
  append-Distinct [] key e d h = (refl, tt)
  append-Distinct ((k, f) ∷ items) key e (new, d) h = ground (
    arith,
    append-Distinct items key e d,
    find-append k items ((key, e) ∷ []),
    eq_iff k.0 key.0,
    eq_iff k.1 key.1,
    eq_iff key.0 k.0,
    eq_iff key.1 k.1,
    new,
    h,
  )
