-- ===== src/Retrieval/Pages.antt =====
-- A page of a text is as long as the budget lets it be.
use grag.Base.{
  ℕ, zero, suc, ◌+◌, ◌-◌, ◌*◌, ◌/◌, ◌≤◌, ◌<◌, min, ltb, leb, String, Option, none, some, ◌&&◌, not,
  if◌then◌else◌, if_inv, ◌≡◌, refl, sym, ◌∙◌, ◌⊎◌, inl, inr, arith,
}
use grag.Base.{◌==◌ as nat_eq}
use grag.Base.Result.{GragError, Result, returned, raised, configuration_error}
use mathlib.Core.Path.{subst}
use grag.Base.Values.{Props}
use grag.Retrieval.{
  search_end, best_end, page_end, chars, PageRequest, Window, Page, check_page, response,
  pack_text_page,
}

middle_bounds :
    (low bound : ℕ)
    → low < bound
    → (low ≤ (low + (bound - 1)) / 2) × ((low + (bound - 1)) / 2 < bound)
middle_bounds low bound h = (omega arith, omega arith)

module _ (measured : ℕ → ℕ) (budget offset limit : ℕ) where
  -- The best page so far ends just before `low`, or there is none and `low` is the offset.
  abbrev Best : ℕ → Option ℕ → Type 0
  Best low none = low ≡ offset
  Best low (some end) = (low ≡ end + 1) × (measured end ≤ budget) × (offset ≤ end)

  -- A page that cannot be made longer, or no page.
  abbrev Longest : Option ℕ → Type 0
  Longest none = budget < measured offset
  Longest (some end) =
      (measured end ≤ budget) × (budget < measured (end + 1)) × (offset ≤ end) × (end < limit)

  abbrev Found : Option (Option ℕ) → Type 0
  Found r = (found : Option ℕ) × (r ≡ some found) × Longest found

  Best-Longest :
      (low bound : ℕ) (best : Option ℕ)
      → low ≡ bound
      → bound ≤ limit
      → budget < measured bound
      → Best low best
      → Longest best
  Best-Longest low bound none e k m b = rw (sym b ∙ e) m
  Best-Longest low bound (some end) e k m (l, f, o) =
      (f, rw (sym l ∙ e) m, o, omega (arith, l, e, k))

  search_end-Longest :
      (fuel low bound : ℕ) (best : Option ℕ)
      → bound - low ≤ fuel
      → low ≤ bound
      → bound ≤ limit
      → offset ≤ low
      → budget < measured bound
      → Best low best
      → Found (search_end measured budget fuel low bound best)
  unfolding search_end
  search_end-Longest zero low bound best f h k o m b =
      if_inv Found (ltb low bound) none (some best) (λ t. absurd (ground (arith, t, f)))
        (λ t. (best, refl, Best-Longest low bound best (ground (arith, t, h)) k m b))
  search_end-Longest (suc fuel) low bound best f h k o m b =
      let middle = (low + (bound - 1)) / 2 in
      let up = search_end measured budget fuel (middle + 1) bound (some middle) in
      let down = search_end measured budget fuel low middle best in
      if_inv Found (not (ltb low bound)) (some best)
        (if leb (measured middle) budget then up else down)
        (λ t. (best, refl, Best-Longest low bound best (ground (arith, t, h)) k m b))
        (λ t.
          let inside : low < bound = ground (arith, t) in
          let (least, most) = middle_bounds low bound inside in
          if_inv Found (leb (measured middle) budget) up down
            (λ g.
              search_end-Longest fuel (middle + 1) bound (some middle) (omega (arith, f, least))
                (omega (arith, most)) k (omega (arith, o, least)) m
                (refl, ground (arith, g), omega (arith, o, least)))
            (λ g.
              search_end-Longest fuel low middle best (omega (arith, f, most)) least
                (omega (arith, k, most)) o (ground (arith, g)) b))

  -- What a call gives: a page that fits and cannot be longer, or an error where no page with a
  -- character fits.
  abbrev pub Given : Result ℕ → Type 0
  Given r =
      ((end : ℕ)
        → r ≡ returned end
        → (measured end ≤ budget)
          × (offset ≤ end)
          × (end ≤ limit)
          × ((end ≡ limit) ⊎ (budget < measured (end + 1))))
      × ((e : GragError)
          → r ≡ raised e
          → (e ≡ configuration_error)
            × ((budget < measured offset) ⊎ (budget < measured (offset + 1))))

  abbrev pub Ended : Option (Result ℕ) → Type 0
  Ended o = (r : Result ℕ) × (o ≡ some r) × Given r

  returned-Given :
      (end : ℕ)
      → measured end ≤ budget
      → offset ≤ end
      → end ≤ limit
      → (end ≡ limit) ⊎ (budget < measured (end + 1))
      → Given (returned end)
  returned-Given end f o l m = (
    λ x h.
        let e : end ≡ x = cc in
        subst
          (λ t.
            (measured t ≤ budget)
            × (offset ≤ t)
            × (t ≤ limit)
            × ((t ≡ limit) ⊎ (budget < measured (t + 1))))
          e (f, o, l, m),
    λ e h. absurd cc,
  )

  raised-Given :
      (budget < measured offset) ⊎ (budget < measured (offset + 1))
      → Given (raised configuration_error)
  raised-Given h = (λ x t. absurd cc, λ e t. (cc, h))

  best_end-Given :
      (total : ℕ) (best : Option ℕ)
      → Longest best
      → Given (best_end measured budget offset total best)
  unfolding best_end
  best_end-Given total none h = raised-Given (inl h)
  best_end-Given total (some end) (f, m, o, l) =
      if_inv Given (ltb end total && nat_eq end offset) (raised configuration_error) (returned end)
        (λ t.
          let e : end ≡ offset = ground (arith, t) in
          raised-Given (inr (subst (λ x. budget < measured (x + 1)) e m)))
        (λ _. returned-Given end f o (omega (arith, l)) (inr m))

  pub page_end-Ended :
      (total : ℕ) → offset ≤ limit → Ended (page_end measured budget offset total limit)
  unfolding page_end
  page_end-Ended total h =
      let searched = search_end measured budget (limit - offset) offset limit none in
      if_inv Ended (leb (measured limit) budget) (some (returned limit))
        (elim searched [
          | none ↦ none
          | some best ↦ some (best_end measured budget offset total best)
        ])
        (λ t. (
          returned limit,
          refl,
          returned-Given limit (ground (arith, t)) h (omega arith) (inl refl),
        ))
        (λ t.
          let (best, e, l) =
            search_end-Longest (limit - offset) offset limit none (omega arith) h (omega arith)
              (omega arith) (ground (arith, t)) refl in
          (best_end measured budget offset total best, rw e refl, best_end-Given total best l))

-- A call of `pack_text_page` whose request is accepted, for a window that reaches the offset, ends: with
-- a page that fits the budget, starts at the offset and ends at the limit or where one character more
-- would not fit; or with a ConfigurationError, where the empty page or one character does not fit.
pub pack_text_page-Ended :
    (measured : Page → ℕ) (sha256 : String → String) (properties : Props) (req : PageRequest)
    (budget : ℕ) (window : Window) (prop value digest : String) (total : ℕ)
    → check_page sha256 properties req window ≡ returned (prop, value, digest, total)
    → req.text_offset ≤ window.page_origin + chars value
    → let limit = min (window.page_origin + chars value) (req.text_offset + 4 * budget) in
      let size : ℕ → ℕ = λ end. measured (response req prop digest total end) in
      (r : Result ℕ) × (pack_text_page measured sha256 properties req budget window
        ≡ some (elim r [
          | returned end ↦ returned (response req prop digest total end)
          | raised e ↦ raised e
        ]))
      × Given size budget req.text_offset limit r
unfolding pack_text_page
pack_text_page-Ended measured sha256 properties req budget window prop value digest total c h =
    let limit = min (window.page_origin + chars value) (req.text_offset + 4 * budget) in
    let size : ℕ → ℕ = λ end. measured (response req prop digest total end) in
    let (r, e, g) = page_end-Ended size budget req.text_offset limit total (omega (arith, h)) in
    (r, rw (pack_text_page, c, e) refl, g)
