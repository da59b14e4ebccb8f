-- ===== src/Limits/Tests.antt =====
-- Budgets, requests and reads at small inputs.
use grag.Base.{ℕ, ◌+◌, ◌≤◌, String, List, [], ◌∷◌, ◌≡◌, refl, ◌↔◌, some, arith, length, ◌<◌, ◌⊎◌}
use grag.Base.Dict.{lookup, insert}
use grag.Base.Result.{GragError, returned, raised, resource_limit}
use grag.Limits.{
  Context, WorkBudget, done, part, Fields, fresh_budget, used_of, work_limit, check_size, charge,
  charge_work, charge_source, add_charge, ◌>>=◌, source_limit, source_used, read_source,
  validate_request, field_length, field_bounds, max_request_bytes, max_mutations, candidate_quota,
}
use grag.Limits.Charges.{charge_all, total, charge_all-used}
use grag.Limits.Source.{read_source-Read}
use grag.Limits.Requests.{encoded_size, WithinFields, validate_request_iff}

abbrev inside : Context
inside = record { source = some fresh_budget; work = some fresh_budget }

abbrev charges : List (String × ℕ)
charges = ("statements", 3) ∷ ("source_bytes", 7) ∷ ("statements", 4) ∷ []

abbrev after_charges : Context
after_charges = (charge_all charges inside).1

charges_return : charge_all charges inside ≡ (returned tt, after_charges)
unfolding charge_all charge charge_work charge_source add_charge used_of lookup insert work_limit
    check_size ◌>>=◌
charges_return = refl

no_charges : used_of fresh_budget "statements" ≤ 4096
unfolding used_of lookup
no_charges = omega arith

statements_limit : work_limit "statements" ≡ some 4096
unfolding work_limit lookup
statements_limit = refl

charge_all-used_example :
    (w : WorkBudget) × (after_charges.work ≡ some w)
    × (used_of w "statements" ≡ used_of fresh_budget "statements" + total "statements" charges)
    × (used_of w "statements" ≤ 4096)
charge_all-used_example =
    charge_all-used charges inside after_charges fresh_budget "statements" 4096 refl refl
      statements_limit no_charges charges_return

abbrev file : List ℕ
file = 104 ∷ 105 ∷ []

abbrev after_read : Context
after_read = (read_source file 2 inside).1

read_returns : read_source file 2 inside ≡ (returned file, after_read)
unfolding read_source charge charge_source add_charge used_of source_used lookup insert work_limit
    check_size ◌>>=◌
read_returns = refl

too_long : (read_source file 1 inside).0 ≡ raised (resource_limit "source_file_bytes" 1)
unfolding read_source charge charge_source add_charge used_of source_used lookup insert work_limit
    check_size ◌>>=◌
too_long = refl

read_source-Read_example :
    let r = read_source file 2 inside in
    ((length file ≤ 2)
      × (source_used inside + length file ≤ source_limit)
      × (r.0 ≡ returned file)
      × (source_used r.1 ≡ source_used inside + length file))
    ⊎ (((2 < length file) ⊎ (source_limit < source_used inside + length file))
        × ((e : GragError) × (r.0 ≡ raised e)))
read_source-Read_example = read_source-Read file 2 inside fresh_budget refl

quota_returns : candidate_quota 3 500 ≡ returned 341
unfolding candidate_quota check_size
quota_returns = refl

abbrev fields : Fields
fields = ("nodes", 600) ∷ ("edges", 400) ∷ []

validate_request_iff_example : (validate_request (part 9 done) fields ≡ returned tt) ↔ (
    ((n : ℕ) × (encoded_size (part 9 done) ≡ some n) × (n ≤ max_request_bytes))
    × (field_length fields "nodes" + field_length fields "edges" ≤ max_mutations)
    × WithinFields fields field_bounds)
validate_request_iff_example = validate_request_iff (part 9 done) fields
