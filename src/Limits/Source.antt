-- ===== src/Limits/Source.antt =====
-- What `read_source` returns, and what it charges.
use grag.Base.{
  ℕ, ◌+◌, ◌-◌, ◌≤◌, List, ◌≡◌, length, take, length-take, take-eq_self, min, arith, some, ◌<◌, leb,
  ◌⊎◌, inl, inr, Bool-cases, ap, sym, ◌∙◌,
}
use grag.Base.Dict.{lookup, lookup-insert}
use grag.Base.Result.{GragError, returned, raised, Result-cases, raised-ne-returned}
use grag.Limits.{
  Context, WorkBudget, used_of, add_charge, work_limit, check_size, charge, charge_source, ◌>>=◌,
  source_limit, source_used, read_source,
}

-- A read that returns has the whole file, which is within the caller's cap; with a source budget
-- the file's bytes are added to what is used, and the sum is within the limit.
pub read_source-whole :
    (file : List ℕ) (max_bytes : ℕ) (c c' : Context) (w : WorkBudget) (bytes : List ℕ)
    → c.source ≡ some w
    → read_source file max_bytes c ≡ (returned bytes, c')
    → (bytes ≡ file)
      × (length file ≤ max_bytes)
      × (source_used c' ≡ source_used c + length file)
      × (source_used c' ≤ source_limit)
unfolding read_source charge charge_source add_charge check_size work_limit source_used used_of
    lookup ◌>>=◌
read_source-whole file max_bytes c c' w bytes has h =
    let cap = min max_bytes (source_limit - used_of w "source_bytes") in
    let total = used_of w "source_bytes" + length (take (cap + 1) file) in
    ground (
      arith,
      length-take (cap + 1) file,
      take-eq_self (cap + 1) file,
      lookup-insert "source_bytes" "source_bytes" total w.used,
    )

-- A file within the caller's cap that the source budget, if there is one, has room for is read.
pub read_source-returned :
    (file : List ℕ) (max_bytes : ℕ) (c : Context)
    → length file ≤ max_bytes
    → source_used c + length file ≤ source_limit
    → (read_source file max_bytes c).0 ≡ returned file
unfolding read_source charge charge_source add_charge check_size work_limit source_used used_of
    lookup ◌>>=◌
read_source-returned file max_bytes c fits room =
    let cap = min max_bytes (source_limit - source_used c) in
    ground (arith, length-take (cap + 1) file, take-eq_self (cap + 1) file)

-- With a source budget, one of two is the case. The file is within the caller's cap and what was used
-- and its bytes within the limit: the whole file is returned and its bytes are added to what is used.
-- Or the file is above the cap, or the sum above the limit: the read raises.
pub read_source-Read :
    (file : List ℕ) (max_bytes : ℕ) (c : Context) (w : WorkBudget)
    → c.source ≡ some w
    → let r = read_source file max_bytes c in
      ((length file ≤ max_bytes)
        × (source_used c + length file ≤ source_limit)
        × (r.0 ≡ returned file)
        × (source_used r.1 ≡ source_used c + length file))
      ⊎ (((max_bytes < length file) ⊎ (source_limit < source_used c + length file))
          × ((e : GragError) × (r.0 ≡ raised e)))
read_source-Read file max_bytes c w has =
    let r = read_source file max_bytes c in
    elim (Result-cases r.0) [
      | inl (bytes, e) ↦
          let (same, fits, used, room) =
            read_source-whole file max_bytes c r.1 w bytes has (ap (λ x. (x, r.1)) e) in
          inl (fits, ground (arith, used, room), e ∙ ap returned same, used)
      | inr (problem, e) ↦ inr (no_room problem e, (problem, e))
    ]
  where
    no_room :
        (problem : GragError)
        → (read_source file max_bytes c).0 ≡ raised problem
        → (max_bytes < length file) ⊎ (source_limit < source_used c + length file)
    no_room problem e = elim (Bool-cases (leb (length file) max_bytes)) [
      | inr f ↦ inl (ground (arith, f))
      | inl t ↦ elim (Bool-cases (leb (source_used c + length file) source_limit)) [
        | inr f ↦ inr (ground (arith, f))
        | inl u ↦
            let whole =
              read_source-returned file max_bytes c (ground (arith, t)) (ground (arith, u)) in
            absurd (raised-ne-returned (sym e ∙ whole))
      ]
    ]
