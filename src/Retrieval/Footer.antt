-- ===== src/Retrieval/Footer.antt =====
-- `attach_metadata`: optional metadata never makes a response too large, and no more of it goes than
-- has to. Both lists have the entry that goes first at their head.
use grag.Base.{
  ℕ, ◌+◌, ◌≤◌, ◌<◌, String, List, length, drop, ◌≡◌, sym, ap, ◌∙◌, arith, ◌⊎◌, inl, inr,
}
use mathlib.Core.Path.{subst}
use grag.Retrieval.{Metadata, drop_hits, drop_unknowns, attach_metadata, floor_metadata}
use grag.Retrieval.Loops.{
  without, AllBelow, AllBelow-none, AllBelow-map, drop-length, fewer-all, drop_hits-Dropped,
  Shortened, drop_unknowns-Shortened,
}

module _ (measured : Metadata → ℕ) (budget : ℕ) where
  -- What `attach_metadata` does: so many counts and labels are gone, and each of them had to go.
  pub record Attached (counts : List (String × ℕ)) (omitted : ℕ) (unknowns : List String)
      (m : Metadata) : Type 0 where
    pub counts_gone : ℕ
    pub labels_gone : ℕ
    pub some_counts : counts_gone ≤ length counts
    pub some_labels : labels_gone ≤ length unknowns
    pub same : m ≡ without counts omitted unknowns counts_gone labels_gone
    pub fits : measured m ≤ budget
    pub counts_needed :
        AllBelow counts_gone (λ k. budget < measured (without counts omitted unknowns k 0))
    pub labels_needed :
        AllBelow labels_gone
          (λ j. budget < measured (without counts omitted unknowns counts_gone j))
    pub counts_first : (labels_gone ≡ 0) ⊎ (counts_gone ≡ length counts)

  module _ (counts : List (String × ℕ)) (omitted : ℕ) (unknowns : List String) where
    without-all :
        without counts omitted unknowns (length counts) (length unknowns)
        ≡ floor_metadata counts omitted unknowns
    without-all =
        ap
          (λ (x : List (String × ℕ)).
            record (without counts omitted unknowns (length counts) (length unknowns)) { hits = x })
          (drop-length counts)
        ∙ ap (λ (x : List String). record (floor_metadata counts omitted unknowns) { unknowns = x })
            (drop-length unknowns)

    -- How both loops end, with so many counts and labels gone.
    fits-of_ends :
        (k j : ℕ)
        → AllBelow j (λ i. budget < measured (without counts omitted unknowns k i))
        → (measured (without counts omitted unknowns k 0) ≤ budget) ⊎ (k ≡ length counts)
        → (measured (without counts omitted unknowns k j) ≤ budget) ⊎ (j ≡ length unknowns)
        → measured (floor_metadata counts omitted unknowns) ≤ budget
        → (measured (without counts omitted unknowns k j) ≤ budget)
          × ((j ≡ 0) ⊎ (k ≡ length counts))
    fits-of_ends k j needed (inl f) ends h =
        let none_gone = AllBelow-none j _ (λ over. omega (arith, f, over)) needed in
        (
          subst (λ i. measured (without counts omitted unknowns k i) ≤ budget) (sym none_gone) f,
          inl none_gone,
        )
    fits-of_ends k j needed (inr e) (inl f) h = (f, inr e)
    fits-of_ends k j needed (inr e) (inr all) h =
        (rw (e, all) (subst (λ m. measured m ≤ budget) (sym without-all) h), inr e)

    -- If the response with the metadata of the packing fits, then attach_metadata takes out the first
    -- k label counts and the first j unknown labels, in the order in which they go, such that: the
    -- other counts and labels are left as they were, k is added to the number of omitted counts, and
    -- j is the number of omitted labels; the response with it fits; with any fewer counts taken out
    -- and all labels left, or with the k counts and any fewer labels taken out, it is over the
    -- budget; and a label is taken out only where all counts are.
    pub attach_metadata-fits :
        measured (floor_metadata counts omitted unknowns) ≤ budget
        → Attached counts omitted unknowns (attach_metadata measured budget counts omitted unknowns)
    unfolding attach_metadata
    attach_metadata-fits h =
        let first = drop_hits measured budget counts omitted unknowns in
        let m = drop_unknowns measured budget first.hits first.omitted first.unknowns 0 in
        let d = drop_hits-Dropped measured budget counts omitted unknowns in
        let k = d.gone in
        let a : Shortened measured budget (drop k counts) (omitted + k) unknowns 0 m =
          subst (λ (x : Metadata). Shortened measured budget x.hits x.omitted x.unknowns 0 m) d.same
            (drop_unknowns-Shortened measured budget first.hits first.omitted first.unknowns 0) in
        let j = a.gone in
        let same : m ≡ without counts omitted unknowns k j =
          a.same ∙ fewer-all counts omitted unknowns k j in
        let needed =
          AllBelow-map j _ _
            (λ i over.
              subst (λ x. budget < measured x) (fewer-all counts omitted unknowns k i) over)
            a.needed in
        let (fits, counts_first) =
          fits-of_ends k j needed
            (subst (λ x. (measured x ≤ budget) ⊎ (k ≡ length counts)) d.same d.ends)
            (subst (λ x. (measured x ≤ budget) ⊎ (j ≡ length unknowns)) same a.ends) h in
        record {
          counts_gone = k;
          labels_gone = j;
          some_counts = d.some_gone;
          some_labels = a.some_gone;
          same = same;
          fits = subst (λ x. measured x ≤ budget) (sym same) fits;
          counts_needed = d.needed;
          labels_needed = needed;
          counts_first = counts_first;
        }
