-- ===== src/Retrieval/Qualifiers.antt =====
-- src/grag/retrieval/packing.py: the qualifiers that a read adds to its nodes, and `changed_sources` of
-- src/grag/core/source_anchors.py. The JSON of the stored anchors and the digests of the files on disk
-- are parameters.
pub mod Stable
mod Tests
use grag.Base.{
  ℕ, String, ◌<>◌, str_eq, List, [], ◌∷◌, map, Option, none, some, Bool, true, false, not,
  if◌then◌else◌,
}
use grag.Base.Dict.{lookup, insert, erase, update}
use grag.Base.Values.{Value, Props, str, other}
use grag.Graph.{NodeRecord, Subgraph}
use grag.Revisions.{Hashing, content_revision}
use grag.Evidence.{Texts, exclusion_reason}

-- An item of the decoded list: three texts, or anything else. A value that is no list gives no items.
pub data Anchor : Type 0 where
  anchor : String → String → String → Anchor
  malformed : Anchor

pub record Files : Type 0 where
  pub decode : Value → List Anchor
  pub digest : String → Option String
  -- a list as a property's value is known by its truth and its text
  pub shown : List String → String

module _ (files : Files) where
  unfoldable pub changed_items : List Anchor → List String
  changed_items [] = []
  changed_items (malformed ∷ items) = changed_items items
  changed_items (anchor token path recorded ∷ items) =
      let rest = changed_items items in
      elim (files.digest path) [
        | none ↦ (token <> " (missing)") ∷ rest
        | some current ↦ if not (str_eq current recorded) then token ∷ rest else rest
      ]

  abbrev pub changed_sources : Value → List String
  changed_sources encoded = changed_items (files.decode encoded)

  -- The body of the loop of `_with_source_changes`
  unfoldable pub source_changes : Props → Props
  source_changes props = elim (lookup "_source_files" props) [
    | none ↦ props
    | some encoded ↦ elim (changed_sources encoded) [
      | [] ↦ erase "_source_files" props
      | token ∷ more ↦
          insert "_source_changed" (other true (files.shown (token ∷ more)))
            (erase "_source_files" props)
    ]
  ]

  abbrev pub with_source_changes : Subgraph → Subgraph
  with_source_changes g = record g {
    nodes = map (λ (n : NodeRecord). record n { properties = source_changes n.properties }) g.nodes;
  }

-- `{"_LABEL": node.label, **node.properties}`
abbrev pub labelled : String → Props → Props
labelled label props = update (("_LABEL", str label) ∷ []) props

abbrev pub revise : Hashing → NodeRecord → NodeRecord
revise h n = record n {
  properties =
      insert "_revision" (str (content_revision h (labelled n.label n.properties))) n.properties;
}

abbrev pub with_revisions : Hashing → Subgraph → Subgraph
with_revisions h g = record g { nodes = map (revise h) g.nodes }

-- The body of the loop of `_qualify`
unfoldable pub qualify_props : Texts → ℕ → Props → Props
qualify_props t now props = elim (exclusion_reason t props now) [
  | none ↦ props
  | some reason ↦
      if str_eq reason "" then props else insert "_evidence_visibility" (str reason) props
]

abbrev pub qualify : Texts → ℕ → Subgraph → Subgraph
qualify t now g = record g {
  nodes =
      map (λ (n : NodeRecord). record n { properties = qualify_props t now n.properties }) g.nodes;
}
