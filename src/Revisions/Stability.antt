-- ===== src/Revisions/Stability.antt =====
-- What a content revision does not depend on.
use text.Mathlib.Text.{◌==◌}
use grag.Base.{
  Bool-cases, inl, inr, sym, ◌∙◌, String, [], ◌∷◌, Bool, true, false, ◌≡◌, refl, arith, eq_iff, ap,
}
use grag.Base.Dict.{Dict, insert, erase, contains, filter_items, lookup-insert, lookup-erase}
use grag.Base.Values.{Value, Props}
use grag.Revisions.{Hashing, is_relationship, is_evidence, is_derived, endpoints, content_revision}

filter_items-insert :
    {V : Type 0} (p : String → V → Bool) (k : String) (v : V) (d : Dict V)
    → ((w : V) → p k w ≡ false)
    → filter_items p (insert k v d) ≡ filter_items p d
unfolding filter_items insert
filter_items-insert p k v [] h = ground (arith, h v)
filter_items-insert p k v ((j, w) ∷ d) h =
    ground (arith, h v, h w, eq_iff j k, filter_items-insert p k v d h)

-- An item that is not evidence, under a key that keeps what kind of entity it is, changes nothing.
insert-ignored :
    (h : Hashing) (value : Props) (k : String) (v : Value)
    → is_relationship (insert k v value) ≡ is_relationship value
    → ((w : Value) → is_evidence (is_relationship value) k w ≡ false)
    → content_revision h (insert k v value) ≡ content_revision h value
unfolding content_revision
insert-ignored h value k v kind ignored =
    rw
      (
        content_revision,
        kind,
        filter_items-insert (is_evidence (is_relationship value)) k v value ignored,
      )
      refl

is_evidence-derived :
    (r : Bool) (k : String) (w : Value) → is_derived k ≡ true → is_evidence r k w ≡ false
unfolding is_evidence is_derived
is_evidence-derived r k w h = ground (arith, h)

src_kept : is_derived "_SRC" ≡ false
unfolding is_derived contains
src_kept = refl

dst_kept : is_derived "_DST" ≡ false
unfolding is_derived contains
dst_kept = refl

derived_ne :
    (k other : String) → is_derived k ≡ true → is_derived other ≡ false → k == other ≡ false
derived_ne k other h kept = elim (Bool-cases (k == other)) [
  | inl e ↦ absurd (ground (arith, sym (ap is_derived ((eq_iff k other).0 e)) ∙ h, kept))
  | inr e ↦ e
]

is_relationship-derived :
    (value : Props) (k : String) (v : Value)
    → is_derived k ≡ true
    → is_relationship (insert k v value) ≡ is_relationship value
is_relationship-derived value k v h = ground (
  arith,
  lookup-insert k "_SRC" v value,
  lookup-insert k "_DST" v value,
  derived_ne k "_SRC" h src_kept,
  derived_ne k "_DST" h dst_kept,
)

-- A key of VECTOR_PROPS, or one that starts with `_` and is not in _REVISION_METADATA, may be set
-- to any value: the revision stays.
pub content_revision-derived :
    (h : Hashing) (value : Props) (k : String) (v : Value)
    → is_derived k ≡ true
    → content_revision h (insert k v value) ≡ content_revision h value
content_revision-derived h value k v d =
    insert-ignored h value k v (is_relationship-derived value k v d)
      (λ w. is_evidence-derived (is_relationship value) k w d)

endpoint_ignored :
    (k : String) (w : Value) → contains endpoints k ≡ true → is_evidence true k w ≡ false
unfolding is_evidence
endpoint_ignored k w h = ground (arith, h)

is_relationship-endpoint :
    (value : Props) (k : String) (v : Value)
    → is_relationship value ≡ true
    → is_relationship (insert k v value) ≡ true
is_relationship-endpoint value k v r =
    ground (arith, lookup-insert k "_SRC" v value, lookup-insert k "_DST" v value, r)

-- A relationship may get other endpoints: its revision stays.
pub content_revision-endpoint :
    (h : Hashing) (value : Props) (k : String) (v : Value)
    → is_relationship value ≡ true
    → contains endpoints k ≡ true
    → content_revision h (insert k v value) ≡ content_revision h value
content_revision-endpoint h value k v r e =
    insert-ignored h value k v (is_relationship-endpoint value k v r ∙ sym r)
      (λ w. rw r (endpoint_ignored k w e))

filter_items-erase :
    {V : Type 0} (p : String → V → Bool) (k : String) (d : Dict V)
    → ((w : V) → p k w ≡ false)
    → filter_items p (erase k d) ≡ filter_items p d
unfolding filter_items erase
filter_items-erase p k [] h = refl
filter_items-erase p k ((j, w) ∷ d) h = ground (arith, h w, eq_iff j k, filter_items-erase p k d h)

-- Without such a key, an entity has the same revision.
pub content_revision-erase :
    (h : Hashing) (value : Props) (k : String)
    → is_derived k ≡ true
    → content_revision h (erase k value) ≡ content_revision h value
unfolding content_revision
content_revision-erase h value k d =
    let kind : is_relationship (erase k value) ≡ is_relationship value = ground (
      arith,
      lookup-erase k "_SRC" value,
      lookup-erase k "_DST" value,
      derived_ne k "_SRC" d src_kept,
      derived_ne k "_DST" d dst_kept,
    ) in
    rw
      (
        content_revision,
        kind,
        filter_items-erase (is_evidence (is_relationship value)) k value
            (λ w. is_evidence-derived (is_relationship value) k w d),
      )
      refl
