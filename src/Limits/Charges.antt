-- ===== src/Limits/Charges.antt =====
-- The charges that a bounded call makes.
use grag.Base.{
  ℕ, ◌+◌, ◌≤◌, String, List, [], ◌∷◌, ◌≡◌, some, false, if◌then◌else◌, str_eq, eq_iff, Bool-cases,
  inl, inr, arith,
}
use grag.Base.Dict.{lookup-insert}
use grag.Base.Result.{returned}
use grag.Limits.{
  Context, WorkBudget, Action, used_of, add_charge, work_limit, check_size, charge, charge_work,
  charge_source, ◌>>=◌,
}
use text.Mathlib.Text.{starts_with}

-- A run of charges, which stops at the first that raises.
unfoldable pub charge_all : List (String × ℕ) → Action (Unit {0})
charge_all [] c = (returned tt, c)
charge_all ((name, amount) ∷ more) c = (charge name amount >>= λ _. charge_all more) c

-- The sum of the amounts for one name.
unfoldable pub total : String → List (String × ℕ) → ℕ
total name [] = 0
total name ((other, amount) ∷ more) =
    if str_eq other name then amount + total name more else total name more

used_of-add_charge :
    (name other : String) (amount : ℕ) (w : WorkBudget)
    → used_of (add_charge other amount w).1 name
      ≡ (if str_eq other name then used_of w name + amount else used_of w name)
unfolding used_of add_charge
used_of-add_charge name other amount w =
    ground (arith, eq_iff other name, lookup-insert other name (used_of w other + amount) w.used)

add_charge-le :
    (name : String) (amount m : ℕ) (w w' : WorkBudget)
    → work_limit name ≡ some m
    → add_charge name amount w ≡ (returned tt, w')
    → used_of w' name ≤ m
unfolding add_charge check_size
add_charge-le name amount m w w' limit h =
    ground (arith, used_of-add_charge name name amount w, eq_iff name name)

-- One charge that returns.
charge-used :
    (other : String) (amount : ℕ) (c c' : Context) (w : WorkBudget) (name : String) (m : ℕ)
    → c.work ≡ some w
    → starts_with name "source_" ≡ false
    → work_limit name ≡ some m
    → used_of w name ≤ m
    → charge other amount c ≡ (returned tt, c')
    → (w' : WorkBudget) × (c'.work ≡ some w')
      × (used_of w' name ≡ (if str_eq other name then used_of w name + amount else used_of w name))
      × (used_of w' name ≤ m)
unfolding charge charge_work charge_source
charge-used other amount c c' w name m has kind limit low h =
    elim (Bool-cases (starts_with other "source_")) [
      | inl source ↦ (w, ground arith, ground (arith, eq_iff other name), low)
      | inr work ↦ (
        (add_charge other amount w).1,
        ground arith,
        used_of-add_charge name other amount w,
        ground (
          arith,
          used_of-add_charge name other amount w,
          eq_iff other name,
          add_charge-le name amount m w (add_charge name amount w).1,
        ),
      )
    ]

-- The first call of a chain that returns has returned.
bind_returned :
    (m : Action (Unit {0})) (f : Unit {0} → Action (Unit {0})) (c c' : Context)
    → (m >>= f) c ≡ (returned tt, c')
    → (c₁ : Context) × (m c ≡ (returned tt, c₁)) × (f tt c₁ ≡ (returned tt, c'))
unfolding ◌>>=◌
bind_returned m f c c' h = ((m c).1, ground arith, ground arith)

-- If a run of charges returns under a work budget, then for each resource of `WORK_LIMITS` that is
-- charged to that budget the amount used has grown by exactly the sum of its charges, and is
-- within the resource's limit if it was before.
pub charge_all-used :
    (cs : List (String × ℕ)) (c c' : Context) (w : WorkBudget) (name : String) (m : ℕ)
    → c.work ≡ some w
    → starts_with name "source_" ≡ false
    → work_limit name ≡ some m
    → used_of w name ≤ m
    → charge_all cs c ≡ (returned tt, c')
    → (w' : WorkBudget) × (c'.work ≡ some w')
      × (used_of w' name ≡ used_of w name + total name cs)
      × (used_of w' name ≤ m)
unfolding charge_all total
charge_all-used [] c c' w name m has kind limit low h =
    (w, ground arith, ground arith, ground arith)
charge_all-used ((other, amount) ∷ more) c c' w name m has kind limit low h =
    let first = bind_returned (charge other amount) (λ _. charge_all more) c c' h in
    let one = charge-used other amount c first.0 w name m has kind limit low first.1 in
    let rest = charge_all-used more first.0 c' one.0 name m one.1 kind limit one.3 first.2 in
    (rest.0, rest.1, ground (arith, rest.2, one.2), rest.3)
