-- ===== src/Base/Result.antt =====
-- The errors of core/errors.py that the modelled code raises. Messages and hints are left out: an
-- error is its class, with the resource and the limit of a `ResourceLimitError`, the code of a
-- `ConflictError`, the message of a `CypherError`, and the name of a Python exception that no handler of grag raises.
use Prim.Native.Nat.{ℕ}
use Prim.Native.String.{String}
use mathlib.Core.Path.{◌≡◌, refl}
use mathlib.Core.Logic.{◌⊎◌, inl, inr}

pub data GragError : Type 0 where
  resource_limit : String → ℕ → GragError
  schema_error not_found configuration_error shutting_down grag_error : GragError
  query_interrupted index_inconsistent transaction_outcome_unknown : GragError
  cypher_error : String → GragError
  conflict : String → GragError
  python : String → GragError

-- A call returns, or an exception leaves it.
pub data Result {ℓ} (A : Type ℓ) : Type ℓ where
  returned : A → Result A
  raised : GragError → Result A

-- The rest of a body runs only if the call before it returned.
infixl 5 ◌>>=◌ ◌>>◌
abbrev pub ◌>>=◌ {ℓ κ} : {A : Type ℓ} {B : Type κ} → Result A → (A → Result B) → Result B
returned a >>= rest = rest a
raised problem >>= rest = raised problem

abbrev pub ◌>>◌ {ℓ} : {B : Type ℓ} → Result (Unit {0}) → Result B → Result B
returned _ >> rest = rest
raised problem >> rest = raised problem

pub Result-cases {ℓ} :
    {A : Type ℓ} (r : Result A) → ((a : A) × (r ≡ returned a)) ⊎ ((e : GragError) × (r ≡ raised e))
Result-cases (returned a) = inl (a, refl)
Result-cases (raised e) = inr (e, refl)

-- A chain that returns had both parts return.
pub bind-returned {ℓ κ} :
    {A : Type ℓ} {B : Type κ} (r : Result A) (f : A → Result B) (b : B)
    → (r >>= f) ≡ returned b
    → (a : A) × (r ≡ returned a) × (f a ≡ returned b)
bind-returned (returned a) f b h = (a, refl, h)
bind-returned (raised e) f b h = absurd cc

pub then-returned {κ} :
    {B : Type κ} (r : Result (Unit {0})) (m : Result B) (b : B)
    → (r >> m) ≡ returned b
    → (r ≡ returned tt) × (m ≡ returned b)
then-returned (returned tt) m b h = (refl, h)
then-returned (raised e) m b h = absurd cc

pub returned_inj {ℓ} : {A : Type ℓ} {a b : A} → returned a ≡ returned b → a ≡ b
returned_inj h = cc

pub raised-ne-returned {ℓ} : {A : Type ℓ} {e : GragError} {a : A} → raised e ≡ returned a → ⊥
raised-ne-returned h = cc
