-- ===== src/History/Page.antt =====
-- `read_history`: the page of a node's history that fits a budget. The entries are those of the
-- query, the latest first and 21 at most; the size of a response is a parameter.
use grag.Base.{
  ℕ, zero, suc, ◌≤◌, ◌<◌, min, ltb, leb, leb→le, length, take, is_empty, List, [], ◌∷◌, Option,
  none, some, Bool, true, false, ◌&&◌, if◌then◌else◌, if_inv, &&_iff, ◌≡◌, refl, arith, Bool-cases,
  inl, inr,
}
use grag.Base.Values.{Value}
use grag.Base.Result.{configuration_error, Result, returned, raised}
use grag.History.{Entry}

-- `EvidenceHistory`, and `truncated` of the response
pub record Page : Type 0 where
  pub entries : List Entry
  pub next_before : Option Value
  pub truncated : Bool

abbrev pub last_sequence : List Entry → Option Value
last_sequence [] = none
last_sequence (e ∷ []) = some e.sequence
last_sequence (e ∷ f ∷ more) = last_sequence (f ∷ more)

-- The page with the first `n` entries
unfoldable pub page_of : List Entry → ℕ → Page
page_of entries n =
    let page = take n entries in
    let more = ltb (length page) (length entries) in
    record {
      entries = page;
      next_before = if more then last_sequence page else none;
      truncated = more;
    }

module _ (measured : Page → ℕ) (budget : ℕ) (entries : List Entry) where
  unfoldable pub fits : ℕ → Bool
  fits n = leb (measured (page_of entries n)) budget

  -- The loop from a page of `n` entries: the last one is left out until the page fits.
  unfoldable pub shrink : ℕ → Result Page
  shrink zero =
      if fits zero && is_empty entries
      then returned (page_of entries zero)
      else raised configuration_error
  shrink (suc n) =
      let rest = shrink n in if fits (suc n) then returned (page_of entries (suc n)) else rest

  unfoldable pub read_history : Result Page
  read_history = shrink (min 20 (length entries))

  -- No page of more than `n` and at most `m` entries fits.
  abbrev pub NoneFits : ℕ → ℕ → Type 0
  NoneFits n m = (k : ℕ) → n < k → k ≤ m → fits k ≡ false

  -- How the loop ends: with the longest page that fits, which is empty only if there is no entry, or
  -- with an error where none does.
  pub data Ends (m : ℕ) : Result Page → Type 0 where
    longest :
        (n : ℕ)
        → n ≤ m
        → fits n ≡ true
        → 1 ≤ n
        → NoneFits n m
        → Ends m (returned (page_of entries n))
    nothing : fits 0 ≡ true → entries ≡ [] → NoneFits 0 m → Ends m (returned (page_of entries 0))
    refused :
        NoneFits 0 m → (fits 0 && is_empty entries) ≡ false → Ends m (raised configuration_error)

  empty_of : (es : List Entry) → is_empty es ≡ true → es ≡ []
  empty_of [] h = refl
  empty_of (e ∷ es) h = absurd cc

  none-step : (n m : ℕ) → fits (suc m) ≡ false → NoneFits n m → NoneFits n (suc m)
  none-step n m e h = λ k a b. elim (Bool-cases (leb k m)) [
    | inl t ↦ h k a (leb→le k m t)
    | inr t ↦ let last : k ≡ suc m = ground (arith, t, b) in rw last e
  ]

  extend : (m : ℕ) (r : Result Page) → fits (suc m) ≡ false → Ends m r → Ends (suc m) r
  extend m r e (longest n le f one h) = longest n (omega arith) f one (none-step n m e h)
  extend m r e (nothing f e0 h) = nothing f e0 (none-step 0 m e h)
  extend m r e (refused h f) = refused (none-step 0 m e h) f

  shrink-Ends : (m : ℕ) → Ends m (shrink m)
  unfolding shrink
  shrink-Ends zero =
      if_inv (Ends 0) (fits 0 && is_empty entries) (returned (page_of entries 0))
        (raised configuration_error)
        (λ t.
          let (f, e) = (&&_iff (fits 0) (is_empty entries)).0 t in
          nothing f (empty_of entries e) (λ k a b. absurd (omega arith)))
        (λ t. refused (λ k a b. absurd (omega arith)) t)
  shrink-Ends (suc m) =
      if_inv (Ends (suc m)) (fits (suc m)) (returned (page_of entries (suc m))) (shrink m)
        (λ t. longest (suc m) (omega arith) t (omega arith) (λ k a b. absurd (omega arith)))
        (λ t. extend m (shrink m) t (shrink-Ends m))

  -- `read_history` ends in one of three ways. It returns the page of the first n entries, n from 1 to
  -- 20, which fits the budget, while no longer page of at most 20 does; there are no entries and it
  -- returns the empty page, which fits; or it raises, and then no page from one to 20 entries fits,
  -- and the empty one does not fit or there are entries.
  pub read_history-Ends : Ends (min 20 (length entries)) read_history
  unfolding read_history
  read_history-Ends = shrink-Ends (min 20 (length entries))
