-- ===== src/Mutate.antt =====
-- src/grag/core/mutate.py: the coercion of values to the types of columns, the choice of the
-- properties that a write accepts, and `_upsert_nodes`. Conversions of Python are parameters.
pub mod Types
pub mod Sanitize
pub mod Upsert
pub mod Edges
mod Tests
use grag.Base.{
  ℕ, ◌^◌, ltb, String, ◌<>◌, List, [], ◌∷◌, ◌++◌, Option, none, some, Bool, true, false, not, ◌&&◌,
  ◌||◌, if◌then◌else◌, str_eq,
}
use grag.Base.Dict.{Dict, lookup, has, insert, contains}
use grag.Base.Values.{Value, Props, null, flag, int, negative, str, other, get}
use grag.Base.Result.{schema_error, Result, returned, raised, ◌>>◌, ◌>>=◌}
use grag.Graph.{vector_props}
use grag.Identifiers.{validate_identifier}
use grag.History.{Database, UpsertNode, identity, merge_node, property}
use text.Mathlib.Text.{starts_with}

-- `upper` is `str.upper`, `parse_int` is `int` of a stripped text, `to_float` gives the finite float of
-- a number or a text, `to_date` the date or time of a value for a type, and `same` is `==`.
pub record Conversions : Type 0 where
  pub upper : String → String
  pub parse_int : String → Option Value
  pub to_float : Value → Option Value
  pub to_date : String → Value → Option Value
  pub same : Value → Value → Bool

abbrev pub in_int64 : Value → Option Value
in_int64 (int n) = if ltb n (2 ^ 63) then some (int n) else none
in_int64 (negative n) = if ltb n (2 ^ 63) then some (negative n) else none
in_int64 _ = none

abbrev pub parsed : Option Value → Option Value
parsed none = none
parsed (some n) = in_int64 n

unfoldable pub to_int64 : Conversions → Value → Option Value
to_int64 v (str s) = parsed (v.parse_int s)
to_int64 v value = in_int64 value

abbrev pub to_text : Value → Option Value
to_text (str s) = some (str s)
to_text _ = none

abbrev pub to_flag : Value → Option Value
to_flag (flag b) = some (flag b)
to_flag _ = none

unfoldable pub to_double : Conversions → Value → Option Value
to_double v (flag b) = none
to_double v value = v.to_float value

unfoldable pub coerce_typed : Conversions → String → Value → Option Value
coerce_typed v ctype value =
    if str_eq ctype "STRING"
    then to_text value
    else if str_eq ctype "INT64"
    then to_int64 v value
    else if str_eq ctype "DOUBLE"
    then to_double v value
    else if str_eq ctype "BOOL"
    then to_flag value
    else if contains ("DATE" ∷ "TIMESTAMP" ∷ []) ctype
    then v.to_date ctype value
    else some value

-- `_coerce_value`: `none` where the first part of its result is False.
unfoldable pub coerce_value : Conversions → String → Value → Option Value
coerce_value v declared null = some null
coerce_value v declared value = coerce_typed v (v.upper declared) value

-- Why a property is skipped, with the owner's name and the property's; and, of
-- core/mutations.py, that a new value contains the prior one.
pub data Warning : Type 0 where
  internal undeclared mistyped repeats : String → String → Warning

pub record Accepted : Type 0 where
  pub values : Props
  pub warnings : List Warning

abbrev pub is_internal : String → Bool
is_internal name = starts_with name "_" || contains vector_props name

pub data Verdict : Type 0 where
  skipped : Warning → Verdict
  taken : Value → Verdict

abbrev pub judge_value : Conversions → String → String → Option Value → Result Verdict
judge_value v owner name none = returned (skipped (mistyped owner name))
judge_value v owner name (some coerced) =
    validate_identifier v.upper name >> returned (taken coerced)

abbrev pub judge_column : Conversions → String → String → Value → Option String → Result Verdict
judge_column v owner name value none = returned (skipped (undeclared owner name))
judge_column v owner name value (some declared) =
    judge_value v owner name (coerce_value v declared value)

-- One round of the loop of `_sanitize_props`
unfoldable pub judge : Conversions → String → Dict String → String → Value → Result Verdict
judge v owner columns name value =
    if is_internal name
    then returned (skipped (internal owner name))
    else judge_column v owner name value (lookup name columns)

abbrev pub apply : String → Verdict → Accepted → Accepted
apply name (skipped w) a = record a { warnings = w ∷ a.warnings }
apply name (taken value) a = record a { values = (name, value) ∷ a.values }

-- `_sanitize_props`: the accepted values and the new warnings
unfoldable pub sanitize_props : Conversions → String → Dict String → Props → Result Accepted
sanitize_props v owner columns [] = returned (record { values = []; warnings = [] })
sanitize_props v owner columns ((name, value) ∷ more) =
    let rest = sanitize_props v owner columns more in
    judge v owner columns name value >>= (λ d. rest >>= (λ a. returned (apply name d a)))

-- `_searchable_text_changed`, of the node that a query found
unfoldable pub text_changed : Conversions → Dict String → Props → Props → Bool
text_changed v columns [] previous = false
text_changed v columns ((name, value) ∷ more) previous =
    let rest = text_changed v columns more previous in
    let declared : String = elim (lookup name columns) [ none ↦ "" | some t ↦ v.upper t ] in
    (str_eq declared "STRING" && not (is_internal name) && not (v.same (get previous name) value))
    || rest

abbrev pub vectors_in : Dict String → List String → Props
vectors_in columns [] = []
vectors_in columns (k ∷ ks) =
    let rest = vectors_in columns ks in if has k columns then (k, null) ∷ rest else rest

abbrev pub has_vectors : Dict String → Bool
has_vectors columns = elim (vectors_in columns vector_props) [ [] ↦ false | _ ∷ _ ↦ true ]

module _ (db : Database) (v : Conversions) where
  abbrev pub set_if : Bool → String → Value → Props
  set_if b k value = if b then (k, value) ∷ [] else []

  abbrev pub source_set : Option String → Dict String → Props
  source_set none columns = []
  source_set (some source) columns = set_if (has "_source" columns) "_source" (str source)

  -- `ON CREATE SET`
  unfoldable pub create_sets : UpsertNode → Dict String → Props → String → Props
  create_sets node columns values now =
      values
      ++ (vectors_in columns vector_props
          ++ (set_if (has "_created_at" columns) "_created_at" (other true now)
              ++ source_set node.source columns))

  abbrev pub cleared : Bool → Dict String → Props
  cleared changed columns = if changed then vectors_in columns vector_props else []

  unfoldable pub embeds_other : Dict String → Props → Option Props → Bool
  embeds_other columns values none = false
  embeds_other columns values (some previous) =
      has_vectors columns && text_changed v columns values previous

  -- `ON MATCH SET`: where a text that is embedded has changed, the vectors are cleared.
  unfoldable pub match_sets : UpsertNode → Dict String → Props → Option Props → Props
  match_sets node columns values there =
      values
      ++ (cleared (embeds_other columns values there) columns ++ source_set node.source columns)

  unfoldable pub merge : UpsertNode → Accepted → db.State → Result (List Warning × db.State)
  merge node a s =
      let columns = db.columns s node.label in
      let id = identity node in
      db.write
        (merge_node id (create_sets node columns a.values (db.now s))
          (match_sets node columns a.values (db.node s id)))
        s
      >>= (λ s'. returned (a.warnings, s'))

  unfoldable pub upsert_with :
      UpsertNode → db.State → Option String → Result (List Warning × db.State)
  upsert_with node s none = raised schema_error
  upsert_with node s (some pk) =
      sanitize_props v (identity node) (db.columns s node.label) node.properties
      >>= (λ a. merge node a s)

  -- One round of the second loop of `_upsert_nodes`, by the primary key of the label
  unfoldable pub upsert_node : UpsertNode → db.State → Result (List Warning × db.State)
  upsert_node node s = upsert_with node s (db.primary_key s node.label)

  abbrev pub add_warnings :
      List Warning → List Warning × db.State → Result (List Warning × db.State)
  add_warnings ws (more, s) = returned (ws ++ more, s)

  unfoldable pub upsert_each : List UpsertNode → db.State → Result (List Warning × db.State)
  upsert_each [] s = returned ([], s)
  upsert_each (node ∷ nodes) s =
      let rest = upsert_each nodes in upsert_node node s >>= (λ r. rest r.1 >>= add_warnings r.0)

  abbrev pub all_known : List UpsertNode → db.State → Bool
  all_known [] s = true
  all_known (node ∷ nodes) s = db.has_label s node.label && all_known nodes s

  -- `_upsert_nodes`
  unfoldable pub upsert_nodes : List UpsertNode → db.State → Result (List Warning × db.State)
  upsert_nodes nodes s =
      if not (all_known nodes s) then raised schema_error else upsert_each nodes s
