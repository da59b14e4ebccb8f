-- ===== src/Mutate/Types.antt =====
-- What is accepted has the type of its column, and is accepted again as it is.
use grag.Base.{
  ℕ, ◌^◌, ◌<◌, String, List, [], ◌∷◌, Option, none, some, Bool, true, str_eq, ◌≡◌, inl, inr, refl,
  sym, ◌∙◌, arith, Bool-cases, some_inj, eq_iff,
}
use grag.Base.Dict.{contains}
use grag.Base.Values.{Value, null, flag, int, negative, str, other}
use grag.Mutate.{
  Conversions, in_int64, to_int64, to_text, to_flag, to_double, coerce_typed, parsed, coerce_value,
}

-- The values of the four types that grag declares, apart from dates.
pub data HasType : String → Value → Type 0 where
  missing : {t : String} → HasType t null
  text : (s : String) → HasType "STRING" (str s)
  positive : {n : ℕ} → n < 2 ^ 63 → HasType "INT64" (int n)
  below_zero : {n : ℕ} → n < 2 ^ 63 → HasType "INT64" (negative n)
  boolean : (b : Bool) → HasType "BOOL" (flag b)

-- Floats and dates are taken as they are.
pub record IsPython (v : Conversions) : Type 0 where
  pub float_again : (a b : Value) → v.to_float a ≡ some b → to_double v b ≡ some b
  pub date_again : (t : String) (a b : Value) → v.to_date t a ≡ some b → v.to_date t b ≡ some b

in_int64-kept : (a b : Value) → in_int64 a ≡ some b → b ≡ a
in_int64-kept null b h = absurd cc
in_int64-kept (flag x) b h = absurd cc
in_int64-kept (int n) b h = ground (arith, h)
in_int64-kept (negative n) b h = ground (arith, h)
in_int64-kept (str s) b h = absurd cc
in_int64-kept (other x s) b h = absurd cc

in_int64-again : (a b : Value) → in_int64 a ≡ some b → in_int64 b ≡ some b
in_int64-again a b h = rw (in_int64-kept a b h) (h ∙ rw (in_int64-kept a b h))

in_int64-HasType : (a b : Value) → in_int64 a ≡ some b → HasType "INT64" b
in_int64-HasType null b h = absurd cc
in_int64-HasType (flag x) b h = absurd cc
in_int64-HasType (int n) b h = rw (in_int64-kept (int n) b h) (positive (ground (arith, h)))
in_int64-HasType (negative n) b h =
    rw (in_int64-kept (negative n) b h) (below_zero (ground (arith, h)))
in_int64-HasType (str s) b h = absurd cc
in_int64-HasType (other x s) b h = absurd cc

parsed-in_int64 :
    (o : Option Value) (b : Value) → parsed o ≡ some b → (c : Value) × (in_int64 c ≡ some b)
parsed-in_int64 none b h = absurd cc
parsed-in_int64 (some c) b h = (c, h)

to_int64-in_int64 :
    (v : Conversions) (a b : Value) → to_int64 v a ≡ some b → (c : Value) × (in_int64 c ≡ some b)
unfolding to_int64
to_int64-in_int64 v (str s) b h = parsed-in_int64 (v.parse_int s) b h
to_int64-in_int64 v null b h = (null, h)
to_int64-in_int64 v (flag x) b h = (flag x, h)
to_int64-in_int64 v (int n) b h = (int n, h)
to_int64-in_int64 v (negative n) b h = (negative n, h)
to_int64-in_int64 v (other x s) b h = (other x s, h)

to_int64-of_int : (v : Conversions) (b : Value) → in_int64 b ≡ some b → to_int64 v b ≡ some b
unfolding to_int64
to_int64-of_int v (str s) h = absurd cc
to_int64-of_int v null h = h
to_int64-of_int v (flag x) h = h
to_int64-of_int v (int n) h = h
to_int64-of_int v (negative n) h = h
to_int64-of_int v (other x s) h = h

to_int64-again : (v : Conversions) (a b : Value) → to_int64 v a ≡ some b → to_int64 v b ≡ some b
to_int64-again v a b h =
    let (c, e) = to_int64-in_int64 v a b h in to_int64-of_int v b (in_int64-again c b e)

to_text-HasType : (a b : Value) → to_text a ≡ some b → HasType "STRING" b × (to_text b ≡ some b)
to_text-HasType null b h = absurd cc
to_text-HasType (flag x) b h = absurd cc
to_text-HasType (int n) b h = absurd cc
to_text-HasType (negative n) b h = absurd cc
to_text-HasType (str s) b h = let e : b ≡ str s = sym (some_inj h) in rw e (text s, refl)
to_text-HasType (other x s) b h = absurd cc

to_flag-HasType : (a b : Value) → to_flag a ≡ some b → HasType "BOOL" b × (to_flag b ≡ some b)
to_flag-HasType null b h = absurd cc
to_flag-HasType (flag x) b h = let e : b ≡ flag x = sym (some_inj h) in rw e (boolean x, refl)
to_flag-HasType (int n) b h = absurd cc
to_flag-HasType (negative n) b h = absurd cc
to_flag-HasType (str s) b h = absurd cc
to_flag-HasType (other x s) b h = absurd cc

module _ (v : Conversions) (laws : IsPython v) where
  to_double-again : (a b : Value) → to_double v a ≡ some b → to_double v b ≡ some b
  unfolding to_double
  to_double-again (flag x) b h = absurd cc
  to_double-again null b h = laws.float_again null b h
  to_double-again (int n) b h = laws.float_again (int n) b h
  to_double-again (negative n) b h = laws.float_again (negative n) b h
  to_double-again (str s) b h = laws.float_again (str s) b h
  to_double-again (other x s) b h = laws.float_again (other x s) b h

  coerce_typed-again :
      (t : String) (a b : Value) → coerce_typed v t a ≡ some b → coerce_typed v t b ≡ some b
  unfolding coerce_typed
  coerce_typed-again t a b h = ground (
    arith,
    to_text-HasType a b,
    to_int64-again v a b,
    to_double-again a b,
    to_flag-HasType a b,
    laws.date_again t a b,
    h,
  )

  coerce_value-of :
      (declared : String) (b : Value)
      → coerce_typed v (v.upper declared) b ≡ some b
      → coerce_value v declared b ≡ some b
  unfolding coerce_value
  coerce_value-of d null h = refl
  coerce_value-of d (flag x) h = h
  coerce_value-of d (int n) h = h
  coerce_value-of d (negative n) h = h
  coerce_value-of d (str s) h = h
  coerce_value-of d (other x s) h = h

  pub coerce_value-again :
      (declared : String) (a b : Value)
      → coerce_value v declared a ≡ some b
      → coerce_value v declared b ≡ some b
  unfolding coerce_value
  coerce_value-again d null b h = rw (← some_inj h)
  coerce_value-again d (flag x) b h = coerce_value-of d b (coerce_typed-again _ (flag x) b h)
  coerce_value-again d (int n) b h = coerce_value-of d b (coerce_typed-again _ (int n) b h)
  coerce_value-again d (negative n) b h =
      coerce_value-of d b (coerce_typed-again _ (negative n) b h)
  coerce_value-again d (str s) b h = coerce_value-of d b (coerce_typed-again _ (str s) b h)
  coerce_value-again d (other x s) b h = coerce_value-of d b (coerce_typed-again _ (other x s) b h)

-- The types of columns whose values are told apart without a conversion of floats or dates.
abbrev pub plain_types : List String
plain_types = "STRING" ∷ "INT64" ∷ "BOOL" ∷ []

coerce_typed-HasType :
    (v : Conversions) (t : String) (a b : Value)
    → contains plain_types t ≡ true
    → coerce_typed v t a ≡ some b
    → HasType t b
unfolding coerce_typed contains
coerce_typed-HasType v t a b p h = elim (Bool-cases (str_eq t "STRING")) [
  | inl e ↦
      let same : t ≡ "STRING" = (eq_iff t "STRING").0 e in
      rw same (to_text-HasType a b (rw same at h)).0
  | inr e ↦ elim (Bool-cases (str_eq t "INT64")) [
    | inl i ↦
        let same : t ≡ "INT64" = (eq_iff t "INT64").0 i in
        let (c, j) = to_int64-in_int64 v a b (rw same at h) in rw same (in_int64-HasType c b j)
    | inr i ↦
        let same : t ≡ "BOOL" = ground (
          arith,
          eq_iff t "BOOL",
          p,
          eq_iff "STRING" t,
          eq_iff "INT64" t,
          eq_iff "BOOL" t,
          eq_iff t "STRING",
          eq_iff t "INT64",
        ) in
        rw same (to_flag-HasType a b (rw same at h)).0
  ]
]

-- A value that `_coerce_value` accepts for a column of type STRING, INT64 or BOOL is None or of that
-- type: a text, a whole number from -2 ** 63 to 2 ** 63 - 1, which is never a truth value, or a truth value.
pub coerce_value-HasType :
    (v : Conversions) (declared : String) (a b : Value)
    → contains plain_types (v.upper declared) ≡ true
    → coerce_value v declared a ≡ some b
    → HasType (v.upper declared) b
unfolding coerce_value
coerce_value-HasType v d null b p h = rw (← some_inj h) missing
coerce_value-HasType v d (flag x) b p h = coerce_typed-HasType v _ (flag x) b p h
coerce_value-HasType v d (int n) b p h = coerce_typed-HasType v _ (int n) b p h
coerce_value-HasType v d (negative n) b p h = coerce_typed-HasType v _ (negative n) b p h
coerce_value-HasType v d (str s) b p h = coerce_typed-HasType v _ (str s) b p h
coerce_value-HasType v d (other x s) b p h = coerce_typed-HasType v _ (other x s) b p h
