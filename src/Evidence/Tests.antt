-- ===== src/Evidence/Tests.antt =====
-- A claim that two later ones supersede in turn.
use grag.Base.{
  ℕ, ◌+◌, ◌≤◌, String, List, [], ◌∷◌, length, none, some, true, str_eq, if◌then◌else◌, ◌≡◌, refl,
  ◌⊎◌,
}
use grag.Base.Dict.{contains, lookup}
use grag.Base.Values.{Value, str}
use grag.Base.Result.{Result, returned, raised, schema_error}
use grag.Limits.{check_size}
use grag.Evidence.{
  Target, missing, found, Texts, instant, present, is_text, visit, follow, check_successor,
  exclusion_reason, ended_state, expiry_reason,
}
use grag.Evidence.Supersession.{Leads, AllNew, check_successor-total, check_successor-returned}

abbrev claims : String → Target
claims id =
    if str_eq id "Claim:b"
    then found (some "Claim:c")
    else if str_eq id "Claim:c"
    then found none
    else missing

abbrev state : Value
state = str "superseded"

check_successor-total_example :
    (r : Result ℕ) × (check_successor claims (λ _. true) "Claim:a" state 0 (some "Claim:b")
      ≡ some r)
check_successor-total_example =
    check_successor-total claims (λ _. true) "Claim:a" state 0 (some "Claim:b")

two_steps :
    check_successor claims (λ _. true) "Claim:a" state 0 (some "Claim:b") ≡ some (returned 2)
unfolding check_successor follow visit check_size present contains
two_steps = refl

check_successor-returned_example :
    (ids : List String) × Leads claims (some "Claim:b") ids
    × AllNew ("Claim:a" ∷ []) ids
    × (2 ≡ 0 + length ids)
    × (length ids ≤ 128)
    × ((ids ≡ []) ⊎ (is_text state "superseded" ≡ true))
check_successor-returned_example =
    check_successor-returned claims (λ _. true) "Claim:a" state 0 2 (some "Claim:b") two_steps

-- A chain that comes back to the claim is refused.
cycle_raises :
    check_successor claims (λ _. true) "Claim:c" state 0 (some "Claim:b")
    ≡ some (raised schema_error)
unfolding check_successor follow visit check_size present contains
cycle_raises = refl

abbrev texts : Texts
texts = record { fold = λ s. s; from_iso = λ _. instant 5 }

expired : exclusion_reason texts (("_expires_at", str "2026-01-01") ∷ []) 5 ≡ some "expired"
unfolding exclusion_reason ended_state expiry_reason lookup contains
expired = refl
