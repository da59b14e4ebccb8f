-- ===== src/Limits/Requests.antt =====
-- What is admitted: the size of a value's JSON, a request, and a search over several tables.
use grag.Base.{
  ℕ, ◌+◌, ◌*◌, ◌/◌, ◌≤◌, min, max, String, [], ◌∷◌, ◌≡◌, refl, ◌↔◌, Option, none, some, arith, inl,
  inr, Option-cases,
}
use native.Mathlib.Nat.{div-mul-le_self, le-div_iff_mul-le, mul-le-mul, le_trans, mul_comm}
use grag.Base.Dict.{Dict}
use grag.Base.Result.{Result, returned, raised, Result-cases, ◌>>◌}
use grag.Limits.{
  Encoding, done, fails, part, check_size, count_bytes, json_bytes, max_request_bytes,
  max_mutations, max_candidates, Fields, field_length, field_bounds, check_fields, check_items,
  check_bytes, validate_request, candidate_quota,
}

-- The bytes of a value whose encoding ends well.
unfoldable pub encoded_size : Encoding → Option ℕ
encoded_size done = some 0
encoded_size fails = none
encoded_size (part n rest) = elim (encoded_size rest) [ none ↦ none | some k ↦ some (n + k) ]

count_bytes_sound :
    (maximum size : ℕ) (name : String) (value : Encoding) (n : ℕ)
    → size ≤ maximum
    → count_bytes maximum name size value ≡ returned n
    → (k : ℕ) × (encoded_size value ≡ some k) × (n ≡ size + k) × (size + k ≤ maximum)
unfolding count_bytes encoded_size check_size
count_bytes_sound maximum size name done n low h = (0, refl, ground arith, ground arith)
count_bytes_sound maximum size name fails n low h = cc
count_bytes_sound maximum size name (part m rest) n low h =
    let ih = count_bytes_sound maximum (size + m) name rest n (ground arith) (ground arith) in
    (m + ih.0, rw ih.1, omega (arith, ih.2), omega (arith, ih.3))

count_bytes_complete :
    (maximum size : ℕ) (name : String) (value : Encoding) (k : ℕ)
    → encoded_size value ≡ some k
    → size + k ≤ maximum
    → count_bytes maximum name size value ≡ returned (size + k)
unfolding count_bytes encoded_size check_size
count_bytes_complete maximum size name done k e low = ground arith
count_bytes_complete maximum size name fails k e low = cc
count_bytes_complete maximum size name (part m rest) k e low =
    elim (Option-cases (encoded_size rest)) [
      | inl none' ↦ cc none'
      | inr (j, found) ↦
          ground (arith, found, count_bytes_complete maximum (size + m) name rest j found)
    ]

-- `json_bytes` returns exactly if the encoding ends well and its bytes are within the maximum, and
-- then it returns their number.
pub json_bytes_iff :
    (value : Encoding) (maximum : ℕ) (name : String) (n : ℕ)
    → (json_bytes value maximum name ≡ returned n) ↔ ((encoded_size value ≡ some n) × (n ≤ maximum))
unfolding json_bytes
json_bytes_iff value maximum name n = (
  λ h.
      let r = count_bytes_sound maximum 0 name value n (omega arith) h in
      (rw r.1 (ground (arith, r.2)), omega (arith, r.2, r.3)),
  λ h. ground (arith, count_bytes_complete maximum 0 name value n h.0),
)

candidate_quota-eq :
    (tables requested q : ℕ)
    → candidate_quota tables requested ≡ returned q
    → (tables ≤ 64) × (q ≡ min requested (1024 / max 1 tables))
unfolding candidate_quota check_size
candidate_quota-eq tables requested q h = ground arith

-- An admitted search takes at most the requested number of candidates from each table, at most
-- `MAX_CANDIDATES` from all of them, and at least 16 from each if so many are requested.
pub candidate_quota_bounds :
    (tables requested q : ℕ)
    → candidate_quota tables requested ≡ returned q
    → (q ≤ requested) × (tables * q ≤ max_candidates) × (min requested 16 ≤ q)
candidate_quota_bounds tables requested q h =
    let e = candidate_quota-eq tables requested q h in
    let share = 1024 / max 1 tables in
    let all = div-mul-le_self 1024 (max 1 tables) in
    let low = (le-div_iff_mul-le {k = max 1 tables} {x = 16} {y = 1024} (omega arith)).1 in
    let each : q ≤ share = omega (arith, e.1) in
    let wide : tables ≤ max 1 tables = omega arith in
    (
      omega (arith, e.1),
      le_trans (mul-le-mul wide each) (rw (mul_comm (max 1 tables) share) all),
      omega (arith, e.1, low (omega (arith, e.0))),
    )

-- Each listed field is within its bound.
abbrev pub WithinFields : Fields → Dict ℕ → Type 0
WithinFields fields [] = Unit
WithinFields fields ((name, maximum) ∷ bounds) =
    (field_length fields name ≤ maximum) × WithinFields fields bounds

check_fields_iff :
    (fields : Fields) (bounds : Dict ℕ)
    → (check_fields fields bounds ≡ returned tt) ↔ WithinFields fields bounds
unfolding check_fields check_size
check_fields_iff fields [] = (λ _. tt, λ _. refl)
check_fields_iff fields ((name, maximum) ∷ bounds) =
    let rest = check_fields_iff fields bounds in
    (λ h. (ground arith, rest.0 (ground arith)), λ h. ground (arith, rest.1 h.1, h.0))

>>_iff :
    (m k : Result (Unit {0})) → ((m >> k) ≡ returned tt) ↔ ((m ≡ returned tt) × (k ≡ returned tt))
>>_iff (returned a) k = (λ h. (refl, h), λ h. h.1)
>>_iff (raised e) k = (λ h. cc, λ h. cc)

check_items_iff :
    (fields : Fields)
    → (check_items fields ≡ returned tt)
      ↔ (field_length fields "nodes" + field_length fields "edges" ≤ max_mutations)
unfolding check_items check_size field_length
check_items_iff fields = (λ h. ground arith, λ h. ground arith)

check_bytes_iff :
    (body : Encoding)
    → (check_bytes body ≡ returned tt)
      ↔ ((n : ℕ) × (encoded_size body ≡ some n) × (n ≤ max_request_bytes))
unfolding check_bytes
check_bytes_iff body = (
  λ h. elim (Result-cases (json_bytes body max_request_bytes "request_bytes")) [
    | inl (n, e) ↦
        let r = (json_bytes_iff body max_request_bytes "request_bytes" n).0 e in (n, r.0, r.1)
    | inr (x, e) ↦ absurd (ground (arith, e))
  ],
  λ h. ground (arith, (json_bytes_iff body max_request_bytes "request_bytes" h.0).1 (h.1, h.2)),
)

-- A request is admitted exactly if its JSON is within its bound, its nodes and edges together are
-- within theirs, and so is each of the listed fields. A field that it has not has length 0.
pub validate_request_iff :
    (body : Encoding) (fields : Fields)
    → (validate_request body fields ≡ returned tt) ↔ (
        ((n : ℕ) × (encoded_size body ≡ some n) × (n ≤ max_request_bytes))
        × (field_length fields "nodes" + field_length fields "edges" ≤ max_mutations)
        × WithinFields fields field_bounds)
unfolding validate_request
validate_request_iff body fields = (
  λ h.
      let first = (>>_iff (check_bytes body) _).0 h in
      let second = (>>_iff (check_items fields) _).0 first.1 in
      (
        (check_bytes_iff body).0 first.0,
        (check_items_iff fields).0 second.0,
        (check_fields_iff fields field_bounds).0 second.1,
      ),
  λ h. (>>_iff (check_bytes body) _).1 (
    (check_bytes_iff body).1 h.0,
    (>>_iff (check_items fields) _).1
        ((check_items_iff fields).1 h.1, (check_fields_iff fields field_bounds).1 h.2),
  ),
)
