-- ===== src/Identifiers/Tests.antt =====
-- A label that is accepted, and a keyword that is not.
use grag.Base.{◌≡◌, refl}
use grag.Base.Dict.{contains}
use grag.Base.Result.{schema_error, returned, raised}
use grag.Graph.{make_node_id, split_node_id}
use grag.Identifiers.{
  validate_identifier, is_identifier, all_continue, starts_identifier, continues_identifier,
  validate_identifier-split,
}

accepted : validate_identifier (λ s. s) "Claim_1" ≡ returned tt
unfolding validate_identifier is_identifier all_continue starts_identifier continues_identifier
    contains
accepted = refl

keyword_raises : validate_identifier (λ s. s) "MACRO" ≡ raised schema_error
unfolding validate_identifier is_identifier all_continue starts_identifier continues_identifier
    contains
keyword_raises = refl

validate_identifier-split_example :
    split_node_id (make_node_id "Claim_1" "a:b") ≡ ("Claim_1", "a:b")
validate_identifier-split_example = validate_identifier-split (λ s. s) "Claim_1" "a:b" accepted
