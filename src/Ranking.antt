-- ===== src/Ranking.antt =====
-- src/grag/retrieval/search.py: the order of the fused candidates and the choice among them, that
-- is `_promote_exact_identifiers` and `_diversify`. A score is a float, which is a parameter here.
pub mod Promotion
pub mod Diversity
pub mod Seeds
mod Tests
use grag.Base.{
  ℕ, ◌+◌, leb, String, List, [], ◌∷◌, ◌++◌, length, take, drop, keep, is_empty, Option, none, some,
  Bool, true, false, not, if◌then◌else◌,
}
use grag.Base.Dict.{Dict, lookup, insert, contains}
use grag.Base.Values.{Value, get, str}
use grag.Graph.{NodeRecord}

pub data MatchSource : Type 0 where
  fts vector graph : MatchSource

-- `ScoredNode` of core/types.py
pub record ScoredNode (Score : Type 0) : Type 0 where
  pub node : NodeRecord
  pub score : Score
  pub match_source : MatchSource

abbrev pub exact_match_window : ℕ
exact_match_window = 64

-- `is_exact`, by the query's identifier tokens
abbrev pub name_matches : List String → Value → Bool
name_matches tokens (str name) = contains tokens name
name_matches tokens _ = false

-- The variables of `_diversify`. A cap below 0 counts as 0.
pub record Choice (Score : Type 0) : Type 0 where
  pub chosen : List (ScoredNode Score)
  pub held : List (ScoredNode Score)
  pub counts : Dict ℕ

-- `counts.get(label, 0)`
abbrev pub count_of : Dict ℕ → String → ℕ
count_of counts label = elim (lookup label counts) [ none ↦ 0 | some n ↦ n ]

module _ {Score : Type 0} where
  unfoldable pub is_exact : List String → ScoredNode Score → Bool
  is_exact tokens s = name_matches tokens (get s.node.properties "name")

  unfoldable pub promote_exact_identifiers :
      List String → List (ScoredNode Score) → List (ScoredNode Score)
  promote_exact_identifiers tokens fused =
      let head = take exact_match_window fused in
      let exact = keep (is_exact tokens) head in
      if is_empty tokens
      then fused
      else if is_empty exact
      then fused
      else exact ++ keep (λ s. not (is_exact tokens s)) head ++ drop exact_match_window fused

  unfoldable pub place : ℕ → ScoredNode Score → Choice Score → Choice Score
  place cap s c =
      if leb cap (count_of c.counts s.node.label)
      then record c { held = c.held ++ s ∷ [] }
      else record c {
        chosen = c.chosen ++ s ∷ [];
        counts = insert s.node.label (count_of c.counts s.node.label + 1) c.counts;
      }

  unfoldable pub main_pass : ℕ → ℕ → List (ScoredNode Score) → Choice Score → Choice Score
  main_pass top_k cap [] c = c
  main_pass top_k cap (s ∷ fused) c =
      let rest = main_pass top_k cap fused (place cap s c) in
      if leb top_k (length c.chosen) then c else rest

  unfoldable pub backfill :
      ℕ → List (ScoredNode Score) → List (ScoredNode Score) → List (ScoredNode Score)
  backfill top_k [] chosen = chosen
  backfill top_k (s ∷ held) chosen =
      let rest = backfill top_k held (chosen ++ s ∷ []) in
      if leb top_k (length chosen) then chosen else rest

  unfoldable pub diversify : List (ScoredNode Score) → ℕ → ℕ → List (ScoredNode Score)
  diversify fused top_k cap =
      let c = main_pass top_k cap fused (record { chosen = []; held = []; counts = [] }) in
      if leb cap 0 then take top_k fused else backfill top_k c.held c.chosen
