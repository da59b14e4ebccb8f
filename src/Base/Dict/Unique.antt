-- ===== src/Base/Dict/Unique.antt =====
-- Dicts hold a key once, so they can be counted by their keys.
use Prim.Native.Nat.{◌+◌, ◌≤◌}
use Prim.Native.String.{String}
use mathlib.Core.Path.{◌≡◌, refl}
use mathlib.Core.Bool.{true}
use mathlib.Core.Option.{none, some}
use mathlib.Core.List.{[], ◌∷◌}
use native.Mathlib.Omega.{arith}
use text.Mathlib.TextEquality.{eq_iff}
use grag.Base.Lists.{length, All, All-map}
use grag.Base.Dict.{Dict, lookup, insert, erase, has, lookup-insert, lookup-erase, length-erase-le}

module _ {ℓ} {V : Type ℓ} where
  abbrev pub Unique : Dict V → Type ℓ
  Unique [] = Unit
  Unique ((k, v) ∷ d) = (lookup k d ≡ none) × Unique d

  pub insert-Unique : (k : String) (v : V) (d : Dict V) → Unique d → Unique (insert k v d)
  unfolding insert lookup
  insert-Unique k v [] h = (refl, tt)
  insert-Unique k v ((j, w) ∷ d) (new, h) =
      ground (arith, insert-Unique k v d h, lookup-insert k j v d, eq_iff j k, eq_iff k j)

  pub erase-Unique : (k : String) (d : Dict V) → Unique d → Unique (erase k d)
  unfolding erase
  erase-Unique k [] h = tt
  erase-Unique k ((j, w) ∷ d) (new, h) = ground (arith, erase-Unique k d h, lookup-erase k j d)

  -- Each item is what the dict has at its key.
  pub Unique-items : (d : Dict V) → Unique d → All (λ p. lookup p.0 d ≡ some p.1) d
  unfolding lookup
  Unique-items [] h = tt
  Unique-items ((k, v) ∷ d) (new, h) = (
    ground (arith, eq_iff k k),
    All-map _ _ (λ p e. ground (arith, eq_iff k p.0, new, e)) d (Unique-items d h),
  )

  pub length-erase-has :
      (k : String) (d : Dict V) → has k d ≡ true → length (erase k d) + 1 ≤ length d
  unfolding erase lookup
  length-erase-has k [] h = cc
  length-erase-has k ((j, w) ∷ d) h = ground (arith, length-erase-has k d, length-erase-le k d)

pub length-insert-has {ℓ} :
    {V : Type ℓ} (k : String) (v : V) (d : Dict V)
    → has k d ≡ true
    → length (insert k v d) ≡ length d
unfolding insert lookup
length-insert-has k v [] h = cc
length-insert-has k v ((j, w) ∷ d) h = ground (arith, length-insert-has k v d)

-- A dict is no longer than another that has its keys.
pub length-le_of_has {ℓ κ} :
    {V : Type ℓ} {W : Type κ} (d : Dict V) (e : Dict W)
    → Unique d
    → ((k : String) → has k d ≡ true → has k e ≡ true)
    → length d ≤ length e
unfolding lookup
length-le_of_has [] e u h = omega arith
length-le_of_has ((k, v) ∷ d) e (new, u) h = omega (
  arith,
  length-le_of_has d (erase k e) u
      (λ j t. ground (arith, h j, lookup-erase k j e, eq_iff k j, new, t)),
  length-erase-has k e (h k (ground (arith, eq_iff k k))),
)
