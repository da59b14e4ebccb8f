-- ===== src/Base/Dict.antt =====
-- Python's `dict` with text keys, in insertion order, and membership in a list of texts.
pub mod Unique
use Prim.Native.Nat.{◌+◌, ◌≤◌}
use Prim.Native.String.{String}
use mathlib.Core.Path.{◌≡◌, refl}
use mathlib.Core.Bool.{Bool, true, false, ◌||◌}
use mathlib.Core.Option.{Option, none, some}
use mathlib.Core.List.{List, [], ◌∷◌, ◌++◌}
use native.Mathlib.Omega.{arith}
use text.Mathlib.Text.{◌==◌}
use text.Mathlib.TextEquality.{eq_iff}
use grag.Base.Tests.{if◌then◌else◌}
use grag.Base.Lists.{length}

abbrev pub Dict {ℓ} : Type ℓ → Type ℓ
Dict V = List (String × V)

-- `k in ks` for a list or a set of texts
unfoldable pub contains : List String → String → Bool
contains [] k = false
contains (j ∷ ks) k = j == k || contains ks k

module _ {ℓ} {V : Type ℓ} where
  -- `d.get(k)`
  unfoldable pub lookup : String → Dict V → Option V
  lookup k [] = none
  lookup k ((j, v) ∷ d) = if j == k then some v else lookup k d

  -- `d[k] = v`: a key that is there keeps its place
  unfoldable pub insert : String → V → Dict V → Dict V
  insert k v [] = (k, v) ∷ []
  insert k v ((j, w) ∷ d) = if j == k then (j, v) ∷ d else (j, w) ∷ insert k v d

  -- `d.pop(k, None)`, `del d[k]`
  unfoldable pub erase : String → Dict V → Dict V
  erase k [] = []
  erase k ((j, w) ∷ d) = let rest = erase k d in if j == k then rest else (j, w) ∷ rest

  -- `d.update(other)`
  unfoldable pub update : Dict V → Dict V → Dict V
  update d [] = d
  update d ((k, v) ∷ other) = update (insert k v d) other

  unfoldable pub keys : Dict V → List String
  keys [] = []
  keys ((k, v) ∷ d) = k ∷ keys d

  -- `{k: v for k, v in d.items() if p(k, v)}`
  unfoldable pub filter_items : (String → V → Bool) → Dict V → Dict V
  filter_items p [] = []
  filter_items p ((k, v) ∷ d) = let rest = filter_items p d in if p k v then (k, v) ∷ rest else rest

  abbrev pub has : String → Dict V → Bool
  has k d = elim (lookup k d) [ none ↦ false | some _ ↦ true ]

  pub lookup-insert :
      (k j : String) (v : V) (d : Dict V)
      → lookup j (insert k v d) ≡ (if k == j then some v else lookup j d)
  unfolding lookup insert
  lookup-insert k j v [] = refl
  lookup-insert k j v ((i, w) ∷ d) =
      ground (arith, eq_iff k j, eq_iff i k, eq_iff i j, lookup-insert k j v d)

  pub lookup-erase :
      (k j : String) (d : Dict V) → lookup j (erase k d) ≡ (if k == j then none else lookup j d)
  unfolding lookup erase
  lookup-erase k j [] = ground arith
  lookup-erase k j ((i, w) ∷ d) =
      ground (arith, eq_iff k j, eq_iff i k, eq_iff i j, lookup-erase k j d)

  pub lookup-update-none :
      (k : String) (d other : Dict V)
      → lookup k other ≡ none
      → lookup k (update d other) ≡ lookup k d
  unfolding lookup update
  lookup-update-none k d [] h = refl
  lookup-update-none k d ((j, v) ∷ other) h =
      ground (arith, lookup-update-none k (insert j v d) other, lookup-insert j k v d, eq_iff j k)

  pub lookup-append_none :
      (k : String) (d other : Dict V) → lookup k d ≡ none → lookup k (d ++ other) ≡ lookup k other
  unfolding lookup
  lookup-append_none k [] other h = refl
  lookup-append_none k ((j, v) ∷ d) other h =
      ground (arith, lookup-append_none k d other, eq_iff j k)

  -- `del d[k]` after a `d[k] = v` that added the key gives the dict back.
  pub erase-insert_new :
      (k : String) (v : V) (d : Dict V) → lookup k d ≡ none → erase k (insert k v d) ≡ d
  unfolding lookup insert erase
  erase-insert_new k v [] h = ground (arith, eq_iff k k)
  erase-insert_new k v ((i, w) ∷ d) h =
      ground (arith, eq_iff i k, eq_iff k k, erase-eq_self k d, erase-insert_new k v d)
    where
      erase-eq_self : (k : String) (d : Dict V) → lookup k d ≡ none → erase k d ≡ d
      erase-eq_self k [] h = refl
      erase-eq_self k ((i, w) ∷ d) h = ground (arith, eq_iff i k, erase-eq_self k d)

  pub length-insert-le : (k : String) (v : V) (d : Dict V) → length (insert k v d) ≤ length d + 1
  unfolding insert
  length-insert-le k v [] = omega arith
  length-insert-le k v ((j, w) ∷ d) = ground (arith, length-insert-le k v d)

  pub length-erase-le : (k : String) (d : Dict V) → length (erase k d) ≤ length d
  unfolding erase
  length-erase-le k [] = omega arith
  length-erase-le k ((j, w) ∷ d) = ground (arith, length-erase-le k d)
