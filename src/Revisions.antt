-- ===== src/Revisions.antt =====
-- src/grag/core/revisions.py: `content_revision`, the token of an entity's stored evidence. The
-- JSON of a map, with sorted keys, and SHA-256 are parameters.
pub mod Stability
mod Tests
use grag.Base.{String, ◌<>◌, List, [], ◌∷◌, Bool, true, false, not, ◌&&◌, ◌||◌, if◌then◌else◌}
use grag.Base.Dict.{Dict, has, contains, filter_items}
use grag.Base.Values.{Value, Props, is_null}
use grag.Graph.{vector_props}
use text.Mathlib.Text.{starts_with}

pub record Hashing : Type 0 where
  pub encode : Props → String
  pub sha256 : String → String

abbrev pub revision_metadata : List String
revision_metadata =
    "_LABEL" ∷ "_TYPE" ∷ "_SRC" ∷ "_DST" ∷ "_source" ∷ "_created_at" ∷ "_document_owner"
    ∷ "_evidence_state" ∷ "_review_state" ∷ "_expires_at" ∷ "_superseded_by" ∷ "_evidence_seq"
    ∷ "_document_state" ∷ "_source_state" ∷ []

abbrev pub endpoints : List String
endpoints = "_SRC" ∷ "_DST" ∷ []

abbrev pub is_relationship : Props → Bool
is_relationship value = has "_SRC" value && has "_DST" value

-- The key of an item that no revision depends on.
unfoldable pub is_derived : String → Bool
is_derived k = contains vector_props k || (starts_with k "_" && not (contains revision_metadata k))

unfoldable pub is_evidence : Bool → String → Value → Bool
is_evidence relationship k v =
    not (is_null v)
    && not (contains vector_props k)
    && not (relationship && contains endpoints k)
    && (not (starts_with k "_") || contains revision_metadata k)

unfoldable pub content_revision : Hashing → Props → String
content_revision h value =
    let evidence = filter_items (is_evidence (is_relationship value)) value in
    if is_relationship value
    then "r2:" <> h.sha256 ("grag-relationship-content-v2:" <> h.encode evidence)
    else h.sha256 ("grag-content-v1:" <> h.encode evidence)
