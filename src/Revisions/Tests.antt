-- ===== src/Revisions/Tests.antt =====
-- The revision of a small node and of a relationship.
use grag.Base.{String, ◌<>◌, [], ◌∷◌, true, ◌≡◌, refl}
use grag.Base.Dict.{contains, insert, lookup}
use grag.Base.Values.{Props, str}
use grag.Revisions.{Hashing, is_derived, is_relationship, endpoints, content_revision}
use grag.Revisions.Stability.{content_revision-derived}

abbrev encode_keys : Props → String
encode_keys [] = ""
encode_keys ((k, v) ∷ props) = k <> "," <> encode_keys props

abbrev hashing : Hashing
hashing = record { encode = encode_keys; sha256 = λ s. "#" <> s }

abbrev node : Props
node = ("name", str "load") ∷ ("_source", str "docs/a.md") ∷ []

abbrev relationship : Props
relationship = ("_SRC", str "A:1") ∷ ("_DST", str "B:2") ∷ ("since", str "2026") ∷ []

model_derived : is_derived "_emb_model" ≡ true
unfolding is_derived contains
model_derived = refl

content_revision-derived_example :
    content_revision hashing (insert "_emb_model" (str "m1") node) ≡ content_revision hashing node
content_revision-derived_example =
    content_revision-derived hashing node "_emb_model" (str "m1") model_derived

linked : is_relationship relationship ≡ true
unfolding lookup
linked = refl

is_endpoint : contains endpoints "_DST" ≡ true
unfolding contains
is_endpoint = refl
