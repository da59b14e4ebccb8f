-- ===== src/Evidence/Supersession.antt =====
-- The chains of superseding nodes that `finish_update` accepts.
use grag.Base.{
  ℕ, zero, suc, ◌+◌, ◌≤◌, String, List, [], ◌∷◌, length, Option, none, some, Bool, true, false, not,
  ◌||◌, if◌then◌else◌, str_eq, ◌≡◌, ◌≢◌, refl, sym, ◌∙◌, ◌⊎◌, if_inv, Option-cases, inl, inr, arith,
}
use grag.Base.Dict.{contains}
use grag.Base.Values.{Value}
use grag.Base.Result.{GragError, schema_error, Result, returned, raised, Result-cases}
use grag.Limits.{check_size}
use grag.Evidence.{Target, found, present, is_text, visit, follow, check_successor}

visit-returned :
    (db : String → Target) (seen : List String) (steps : ℕ) (id : String) (next : Option String)
    → visit db seen steps id ≡ returned next
    → (length seen ≤ 128) × (steps + 1 ≤ 1024) × (contains seen id ≡ false) × (db id ≡ found next)
unfolding visit check_size
visit-returned db seen steps id next h = ground (arith, h)

-- One more than the 128 nodes that may have been seen is enough fuel.
follow-total :
    (fuel : ℕ) (db : String → Target) (seen : List String) (steps : ℕ) (successor : Option String)
    → 130 ≤ fuel + length seen
    → 1 ≤ fuel
    → (r : Result ℕ) × (follow fuel db seen steps successor ≡ some r)
unfolding follow
follow-total zero db seen steps successor h k = absurd (omega arith)
follow-total (suc fuel) db seen steps successor h k = elim (Option-cases (present successor)) [
  | inl e ↦ (returned steps, rw (follow, e) refl)
  | inr (id, e) ↦ elim (Result-cases (visit db seen steps id)) [
    | inr (x, v) ↦ (raised x, rw (follow, e, v) refl)
    | inl (next, v) ↦
        let (depth, room, new, at) = visit-returned db seen steps id next v in
        let (r, t) =
          follow-total fuel db (id ∷ seen) (steps + 1) next (omega arith) (omega arith) in
        (r, rw (follow, e, v) t)
  ]
]

-- The nodes of a chain, from a successor on.
pub data Leads (db : String → Target) : Option String → List String → Type 0 where
  ends : {successor : Option String} → present successor ≡ none → Leads db successor []
  passes :
      {successor next : Option String} {ids : List String} (id : String)
      → present successor ≡ some id
      → db id ≡ found next
      → Leads db next ids
      → Leads db successor (id ∷ ids)

-- No node of the list is among those seen, and none stands there twice.
abbrev pub AllNew : List String → List String → Type 0
AllNew seen [] = Unit
AllNew seen (id ∷ ids) = (contains seen id ≡ false) × AllNew (id ∷ seen) ids

follow-ends :
    (fuel : ℕ) (db : String → Target) (seen : List String) (steps : ℕ) (successor : Option String)
    → present successor ≡ none
    → follow (suc fuel) db seen steps successor ≡ some (returned steps)
unfolding follow
follow-ends fuel db seen steps successor e = rw (follow, e) refl

follow-visits :
    (fuel : ℕ) (db : String → Target) (seen : List String) (steps : ℕ) (successor : Option String)
    (id : String) (r : Result (Option String))
    → present successor ≡ some id
    → visit db seen steps id ≡ r
    → follow (suc fuel) db seen steps successor ≡ elim r [
      | raised x ↦ some (raised x)
      | returned next ↦ follow fuel db (id ∷ seen) (steps + 1) next
    ]
unfolding follow
follow-visits fuel db seen steps successor id r e v = rw (follow, e, v) refl

returned_inj : {a b : ℕ} → some (returned a) ≡ some (returned b) → a ≡ b
returned_inj h = cc

raised_ne : {e : GragError} {b : ℕ} → some (raised e) ≢ some (returned b)
raised_ne h = cc

follow-returned :
    (fuel : ℕ) (db : String → Target) (seen : List String) (steps total : ℕ)
    (successor : Option String)
    → length seen ≤ 129
    → follow fuel db seen steps successor ≡ some (returned total)
    → (ids : List String) × Leads db successor ids
      × AllNew seen ids
      × (total ≡ steps + length ids)
      × (length seen + length ids ≤ 129)
unfolding follow
follow-returned zero db seen steps total successor d h = absurd cc
follow-returned (suc fuel) db seen steps total successor d h =
    elim (Option-cases (present successor)) [
      | inl e ↦
          let same : total ≡ steps =
            sym (returned_inj (sym (follow-ends fuel db seen steps successor e) ∙ h)) in
          ([], ends e, tt, omega (arith, same), omega arith)
      | inr (id, e) ↦ elim (Result-cases (visit db seen steps id)) [
        | inr (x, v) ↦
            absurd
              (raised_ne (sym (follow-visits fuel db seen steps successor id (raised x) e v) ∙ h))
        | inl (next, v) ↦
            let (depth, room, new, at) = visit-returned db seen steps id next v in
            let (ids, chain, all, sum, short) =
              follow-returned fuel db (id ∷ seen) (steps + 1) total next (omega arith)
                (sym (follow-visits fuel db seen steps successor id (returned next) e v) ∙ h) in
            (id ∷ ids, passes id e at chain, (new, all), omega arith, omega arith)
      ]
    ]

-- The check of a successor always ends with a result, whatever the database says.
pub check_successor-total :
    (db : String → Target) (resolves : String → Bool) (identity : String) (state : Value)
    (steps : ℕ) (successor : Option String)
    → (r : Result ℕ) × (check_successor db resolves identity state steps successor ≡ some r)
unfolding check_successor
check_successor-total db resolves identity state steps successor =
    elim (Option-cases (present successor)) [
      | inl e ↦ (returned steps, rw (check_successor, e) refl)
      | inr (id, e) ↦
          rw (check_successor, e)
            (if_inv (λ o. (r : Result ℕ) × (o ≡ some r)) (not (is_text state "superseded"))
              (some (raised schema_error))
              (if not (resolves id) || str_eq id identity
                then some (raised schema_error)
                else follow 129 db (identity ∷ []) steps successor)
              (λ _. (raised schema_error, refl))
              (λ _.
                if_inv (λ o. (r : Result ℕ) × (o ≡ some r))
                  (not (resolves id) || str_eq id identity) (some (raised schema_error))
                  (follow 129 db (identity ∷ []) steps successor) (λ _. (raised schema_error, refl))
                  (λ _.
                    follow-total 129 db (identity ∷ []) steps successor (omega arith)
                      (omega arith))))
    ]

check-ends :
    (db : String → Target) (resolves : String → Bool) (identity : String) (state : Value)
    (steps : ℕ) (successor : Option String)
    → present successor ≡ none
    → check_successor db resolves identity state steps successor ≡ some (returned steps)
unfolding check_successor
check-ends db resolves identity state steps successor e = rw (check_successor, e) refl

check-follows :
    (db : String → Target) (resolves : String → Bool) (identity : String) (state : Value)
    (steps total : ℕ) (successor : Option String) (id : String)
    → present successor ≡ some id
    → check_successor db resolves identity state steps successor ≡ some (returned total)
    → (is_text state "superseded" ≡ true)
      × (follow 129 db (identity ∷ []) steps successor ≡ some (returned total))
unfolding check_successor
check-follows db resolves identity state steps total successor id e h = ground (arith, h, e)

-- Where the check of a successor returns, the nodes from the successor on form a chain that ends,
-- with each next one as the database has it. The node itself is not in it and no node is twice,
-- they are at most 128, `chain_steps` has grown by their number, and if there is one the node's
-- state is `superseded`.
pub check_successor-returned :
    (db : String → Target) (resolves : String → Bool) (identity : String) (state : Value)
    (steps total : ℕ) (successor : Option String)
    → check_successor db resolves identity state steps successor ≡ some (returned total)
    → (ids : List String) × Leads db successor ids
      × AllNew (identity ∷ []) ids
      × (total ≡ steps + length ids)
      × (length ids ≤ 128)
      × ((ids ≡ []) ⊎ (is_text state "superseded" ≡ true))
check_successor-returned db resolves identity state steps total successor h =
    elim (Option-cases (present successor)) [
      | inl e ↦
          let same : total ≡ steps =
            sym
              (returned_inj (sym (check-ends db resolves identity state steps successor e) ∙ h)) in
          ([], ends e, tt, omega (arith, same), omega arith, inl refl)
      | inr (id, e) ↦
          let (superseded, chained) =
            check-follows db resolves identity state steps total successor id e h in
          let (ids, chain, all, sum, short) =
            follow-returned 129 db (identity ∷ []) steps total successor (omega arith) chained in
          (ids, chain, all, sum, omega arith, inr superseded)
    ]
