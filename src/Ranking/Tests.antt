-- ===== src/Ranking/Tests.antt =====
-- Three candidates of two labels.
use grag.Base.{ℕ, ◌≤◌, min, String, ◌<>◌, List, [], ◌∷◌, length, ◌≡◌, refl, ◌⊎◌, arith}
use grag.Base.Dict.{contains, lookup}
use grag.Base.Values.{Value, str}
use grag.Ranking.{
  ScoredNode, fts, exact_match_window, is_exact, promote_exact_identifiers, diversify,
}
use grag.Ranking.Promotion.{Promoted, promote_exact_identifiers-Promoted}
use grag.Ranking.Seeds.{AllUnseen, AllAmong, is_among, seed_refs, seed_refs-distinct}
use grag.Ranking.Diversity.{label_count, diversify-fair}

abbrev candidate : String → String → ℕ → ScoredNode ℕ
candidate label name score = record {
  node = record { id = label <> ":" <> name; label = label; properties = ("name", str name) ∷ [] };
  score = score;
  match_source = fts;
}

abbrev candidates : List (ScoredNode ℕ)
candidates =
    candidate "Function" "load" 9
    ∷ candidate "Function" "read_page" 8
    ∷ candidate "Class" "Page" 7
    ∷ []

diversify-fair_example :
    (length (diversify candidates 2 1) ≡ 2)
    × (((label : String) → label_count label (diversify candidates 2 1) ≤ 1)
        ⊎ ((label : String)
            → min 1 (label_count label candidates) ≤ label_count label (diversify candidates 2 1)))
diversify-fair_example = diversify-fair candidates 2 1 (omega arith)

promote_exact_identifiers-Promoted_example :
    Promoted
      (is_exact ("read_page" ∷ []))
      exact_match_window
      candidates
      (promote_exact_identifiers ("read_page" ∷ []) candidates)
promote_exact_identifiers-Promoted_example =
    promote_exact_identifiers-Promoted ("read_page" ∷ []) candidates

promoted :
    promote_exact_identifiers ("read_page" ∷ []) candidates
    ≡ candidate "Function" "read_page" 8
      ∷ candidate "Function" "load" 9
      ∷ candidate "Class" "Page" 7
      ∷ []
unfolding promote_exact_identifiers is_exact contains lookup
promoted = refl

abbrev text_of : Value → String
text_of (str s) = s
text_of _ = "None"

seed_refs-distinct_example :
    AllUnseen text_of [] (seed_refs text_of (("Function", "name") ∷ []) candidates)
    × AllAmong text_of
        (("Function", "name") ∷ [])
        candidates
        (λ l k. is_among text_of l k (seed_refs text_of (("Function", "name") ∷ []) candidates))
seed_refs-distinct_example = seed_refs-distinct text_of (("Function", "name") ∷ []) candidates
