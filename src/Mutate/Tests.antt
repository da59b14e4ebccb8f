-- ===== src/Mutate/Tests.antt =====
-- A batch of properties in which one is accepted.
use grag.Base.{String, [], ◌∷◌, none, some, true, false, ◌≡◌, refl}
use grag.Base.Dict.{Dict, lookup, contains}
use grag.Base.Values.{Props, str, int}
use grag.Base.Result.{returned}
use grag.Identifiers.{
  validate_identifier, is_identifier, all_continue, starts_identifier, continues_identifier,
}
use grag.Mutate.{
  Conversions, Accepted, internal, undeclared, mistyped, to_int64, coerce_typed, coerce_value,
  judge, sanitize_props,
}
use grag.Mutate.Types.{IsPython, HasType, coerce_value-HasType}
use grag.Mutate.Sanitize.{AllAccepted, sanitize_props-again}

abbrev no_floats : Conversions
no_floats = record {
  upper = λ s. s;
  parse_int = λ s. some (int 7);
  to_float = λ v. none;
  to_date = λ t v. none;
  same = λ a b. false;
}

no_floats-IsPython : IsPython no_floats
no_floats-IsPython = record { float_again = λ a b h. absurd cc; date_again = λ t a b h. absurd cc }

abbrev columns : Dict String
columns = ("name", "STRING") ∷ ("count", "INT64") ∷ []

abbrev props : Props
props = ("name", int 3) ∷ ("count", str "7") ∷ ("_source", str "x") ∷ ("size", int 1) ∷ []

abbrev accepted : Accepted
accepted = record {
  values = ("count", int 7) ∷ [];
  warnings = mistyped "a" "name" ∷ internal "a" "_source" ∷ undeclared "a" "size" ∷ [];
}

sanitized : sanitize_props no_floats "a" columns props ≡ returned accepted
unfolding sanitize_props judge coerce_value coerce_typed to_int64 lookup contains
    validate_identifier is_identifier all_continue starts_identifier continues_identifier
sanitized = refl

sanitize_props-again_example :
    AllAccepted no_floats no_floats-IsPython columns accepted.values
    × (sanitize_props no_floats "b" columns accepted.values
        ≡ returned (record { values = accepted.values; warnings = [] }))
sanitize_props-again_example =
    sanitize_props-again no_floats no_floats-IsPython columns "a" "b" props accepted sanitized

coerced : coerce_value no_floats "INT64" (str "7") ≡ some (int 7)
unfolding coerce_value coerce_typed to_int64
coerced = refl

plain : contains ("STRING" ∷ "INT64" ∷ "BOOL" ∷ []) "INT64" ≡ true
unfolding contains
plain = refl

coerce_value-HasType_example : HasType "INT64" (int 7)
coerce_value-HasType_example =
    coerce_value-HasType no_floats "INT64" (str "7") (int 7) plain coerced
