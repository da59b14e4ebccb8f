-- ===== src/Mutate/Sanitize.antt =====
-- `_sanitize_props` on what it has accepted, as `_prepare` and then `_upsert_nodes` call it.
use grag.Base.{String, [], ◌∷◌, Option, none, some, false, ◌≡◌, refl, inl, inr, Bool-cases}
use grag.Base.Dict.{Dict, lookup}
use grag.Base.Values.{Value, Props}
use grag.Base.Result.{returned, ◌>>=◌, bind-returned, then-returned, returned_inj}
use grag.Identifiers.{validate_identifier}
use grag.Mutate.{
  Conversions, coerce_value, Accepted, Verdict, skipped, taken, is_internal, judge_value,
  judge_column, judge, apply, sanitize_props,
}
use grag.Mutate.Types.{IsPython, coerce_value-again}

-- A value that a write may set: its name is not reserved, and a column of the table.
pub record IsAccepted (v : Conversions) (columns : Dict String) (name : String) (value : Value)
    : Type 0 where
  pub public : is_internal name ≡ false
  pub declared : String
  pub column : lookup name columns ≡ some declared
  pub coerced : coerce_value v declared value ≡ some value
  pub named : validate_identifier v.upper name ≡ returned tt

taken_inj : {a b : Value} → taken a ≡ taken b → a ≡ b
taken_inj h = cc

module _ (v : Conversions) (laws : IsPython v) (columns : Dict String) where
  -- A verdict that a value is taken is one that it is accepted.
  Taken : String → Verdict → Type 0
  Taken name (skipped w) = Unit
  Taken name (taken c) = IsAccepted v columns name c

  judge_value-Taken :
      (owner name declared : String) (value : Value) (o : Option Value) (d : Verdict)
      → is_internal name ≡ false
      → lookup name columns ≡ some declared
      → coerce_value v declared value ≡ o
      → judge_value v owner name o ≡ returned d
      → Taken name d
  unfolding Taken
  judge_value-Taken owner name declared value none d i l e h = rw (← returned_inj h) tt
  judge_value-Taken owner name declared value (some c) d i l e h =
      let (named, same) =
        then-returned (validate_identifier v.upper name) (returned (taken c)) d h in
      rw (← returned_inj same) (record {
        public = i;
        declared = declared;
        column = l;
        coerced = coerce_value-again v laws declared value c e;
        named = named;
      })

  judge_column-Taken :
      (owner name : String) (value : Value) (o : Option String) (d : Verdict)
      → is_internal name ≡ false
      → lookup name columns ≡ o
      → judge_column v owner name value o ≡ returned d
      → Taken name d
  unfolding Taken
  judge_column-Taken owner name value none d i l h = rw (← returned_inj h) tt
  judge_column-Taken owner name value (some t) d i l h =
      judge_value-Taken owner name t value (coerce_value v t value) d i l refl h

  judge-Taken :
      (owner name : String) (value : Value) (d : Verdict)
      → judge v owner columns name value ≡ returned d
      → Taken name d
  unfolding judge Taken
  judge-Taken owner name value d h = elim (Bool-cases (is_internal name)) [
    | inl e ↦ rw (← returned_inj (rw e at h)) tt
    | inr e ↦ judge_column-Taken owner name value (lookup name columns) d e refl (rw e at h)
  ]

  judge-again :
      (owner name : String) (c : Value)
      → IsAccepted v columns name c
      → judge v owner columns name c ≡ returned (taken c)
  unfolding judge
  judge-again owner name c a = rw (a.public, a.column, a.coerced, a.named)

  -- Each pair of a name and a value is one that a write may set.
  unfoldable pub AllAccepted : Props → Type 0
  AllAccepted [] = Unit
  AllAccepted ((name, value) ∷ more) = IsAccepted v columns name value × AllAccepted more

  apply-AllAccepted :
      (name : String) (d : Verdict) (a : Accepted)
      → Taken name d
      → AllAccepted a.values
      → AllAccepted (apply name d a).values
  unfolding AllAccepted Taken
  apply-AllAccepted name (skipped w) a t all = all
  apply-AllAccepted name (taken c) a t all = (t, all)

  sanitize_props-AllAccepted :
      (owner : String) (props : Props) (a : Accepted)
      → sanitize_props v owner columns props ≡ returned a
      → AllAccepted a.values
  unfolding sanitize_props AllAccepted
  sanitize_props-AllAccepted owner [] a h = rw (← returned_inj h) tt
  sanitize_props-AllAccepted owner ((name, value) ∷ more) a h =
      let (d, judged, h1) =
        bind-returned (judge v owner columns name value)
          (λ d. sanitize_props v owner columns more >>= (λ b. returned (apply name d b))) a h in
      let (b, rest, h2) =
        bind-returned (sanitize_props v owner columns more) (λ b. returned (apply name d b)) a h1 in
      rw (← returned_inj h2) (
        apply-AllAccepted name d b (judge-Taken owner name value d judged)
          (sanitize_props-AllAccepted owner more b rest))

  sanitize_props-fixed :
      (owner : String) (values : Props)
      → AllAccepted values
      → sanitize_props v owner columns values ≡ returned (record { values = values; warnings = [] })
  unfolding sanitize_props AllAccepted
  sanitize_props-fixed owner [] all = refl
  sanitize_props-fixed owner ((name, value) ∷ more) (a, all) =
      rw (judge-again owner name value a, sanitize_props-fixed owner more all)

  -- What `_sanitize_props` accepts has names that are not reserved, of columns of the table that are
  -- identifiers, and values that their columns take as they are. Where floats and dates are
  -- converted to themselves, a second call on the accepted values, as `_upsert_nodes` makes it after
  -- `_prepare`, accepts all of them as they are and warns of nothing.
  pub sanitize_props-again :
      (owner other_owner : String) (props : Props) (a : Accepted)
      → sanitize_props v owner columns props ≡ returned a
      → AllAccepted a.values
        × (sanitize_props v other_owner columns a.values
            ≡ returned (record { values = a.values; warnings = [] }))
  sanitize_props-again owner other_owner props a h =
      let all = sanitize_props-AllAccepted owner props a h in
      (all, sanitize_props-fixed other_owner a.values all)
