-- ===== src/Retrieval/Qualifiers/Tests.antt =====
-- A note whose source changed and whose review is disputed.
use grag.Base.{[], ◌∷◌, map, some, true, ◌≡◌, refl}
use grag.Base.Dict.{lookup, insert, erase}
use grag.Base.Values.{Props, str, other}
use grag.Graph.{Subgraph}
use grag.Revisions.{Hashing}
use grag.Evidence.{Texts, Parsed, exclusion_reason, ended_state}
use grag.Retrieval.Qualifiers.{
  anchor, malformed, Files, changed_items, changed_sources, source_changes, with_source_changes,
  with_revisions, qualify_props, qualify,
}
use grag.Retrieval.Qualifiers.Stable.{token_of, qualifiers-stable}

abbrev hashing : Hashing
hashing = record { encode = λ props. "e"; sha256 = λ s. s }

abbrev files : Files
files = record {
  decode = λ v. anchor "a.py" "/a.py" "old" ∷ malformed ∷ anchor "b.py" "/b.py" "new" ∷ [];
  digest = λ path. some "new";
  shown = λ tokens. "changed";
}

abbrev texts : Texts
texts = record { fold = λ s. s; from_iso = λ v. Parsed.malformed }

abbrev note : Props
note = ("text", str "t") ∷ ("_source_files", str "[...]") ∷ ("_review_state", str "disputed") ∷ []

abbrev graph : Subgraph
graph = record {
  nodes = record { id = "Note:1"; label = "Note"; properties = note } ∷ [];
  edges = [];
}

changed : changed_sources files (str "[...]") ≡ "a.py" ∷ []
unfolding changed_items
changed = refl

qualified :
    qualify_props texts 0 (source_changes files note)
    ≡ ("text", str "t")
      ∷ ("_review_state", str "disputed")
      ∷ ("_source_changed", other true "changed")
      ∷ ("_evidence_visibility", str "disputed")
      ∷ []
unfolding qualify_props source_changes lookup insert erase exclusion_reason ended_state
    changed_items
qualified = refl

qualifiers-stable_example :
    let read = qualify texts 0 (with_source_changes files (with_revisions hashing graph)) in
    (map (λ n. lookup "_revision" n.properties) read.nodes ≡ map (token_of hashing) graph.nodes)
    × (map (token_of hashing) read.nodes ≡ map (token_of hashing) graph.nodes)
    × (map (λ n. n.id) read.nodes ≡ map (λ n. n.id) graph.nodes)
    × (read.edges ≡ graph.edges)
qualifiers-stable_example = qualifiers-stable hashing files texts 0 graph
