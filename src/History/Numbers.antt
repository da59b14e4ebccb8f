-- ===== src/History/Numbers.antt =====
-- The numbers of a node's revisions have no gap.
use grag.Base.{
  List, [], ◌∷◌, Option, none, some, Bool, true, false, not, if◌then◌else◌, ◌≡◌, refl, sym, ap,
  Bool-cases, inl, inr,
}
use grag.Base.Values.{Value, Props, null, int, is_null}
use grag.Revisions.{Hashing}
use grag.History.{EvidenceUpdate, Changed, property, next_sequence, is_unchanged, adopts, adopts_of}
use grag.History.Laws.{
  Note, numbers, Counts, untracked, created, adopted, next, with_previous, with_baseline,
  current_note, recorded, next_number,
}

Counts-null : {ns : List Value} {v : Value} → Counts ns v → is_null v ≡ true → ns ≡ []
Counts-null untracked e = refl
Counts-null created e = cc
Counts-null adopted e = cc
Counts-null (next c) e = cc

Counts-next :
    {ns : List Value} {v : Value}
    → Counts ns v
    → is_null v ≡ false
    → Counts (next_sequence v ∷ ns) (next_sequence v)
Counts-next untracked e = absurd cc
Counts-next created e = next created
Counts-next adopted e = next adopted
Counts-next (next c) e = next (next c)

next_sequence-null : (v : Value) → is_null v ≡ true → next_sequence v ≡ int 1
next_sequence-null null e = refl
next_sequence-null (Value.flag b) e = refl
next_sequence-null (int n) e = cc
next_sequence-null (Value.negative n) e = cc
next_sequence-null (Value.str s) e = refl
next_sequence-null (Value.other t s) e = refl

-- The number that the node had, and that it was tracked if it had one.
abbrev pub old_number : Changed → Value
old_number c = property c.previous "_evidence_seq"

-- The numbers below the new one
below-Counts :
    (h : Hashing) (previous : Option Props) (b : Bool) (v : Value) (log : List Note)
    → property previous "_evidence_seq" ≡ v
    → b ≡ not (is_null v)
    → Counts (numbers log) v
    → Counts
        (next_sequence v
          ∷ numbers (if adopts_of previous b then with_previous h previous log else log))
        (next_sequence v)
unfolding with_previous numbers property adopts_of
below-Counts h none b v log p t k =
    let n : is_null v ≡ true = ap is_null (sym p) in
    rw (next_sequence-null v n, Counts-null k n) created
below-Counts h (some q) b v log p t k = elim (Bool-cases (is_null v)) [
  | inl n ↦ rw (t, n, next_sequence-null v n, Counts-null k n) adopted
  | inr n ↦ rw (t, n) (Counts-next k n)
]

pub recorded-Counts :
    (h : Hashing) (c : Changed) (u : Option EvidenceUpdate) (log : List Note)
    → c.tracked ≡ not (is_null (old_number c))
    → Counts (numbers log) (old_number c)
    → Counts (numbers (recorded h c u log)) (next_number h c u)
unfolding recorded next_number numbers current_note with_baseline adopts
recorded-Counts h c u log t k = elim (Bool-cases (is_unchanged h c u)) [
  | inl e ↦ rw e k
  | inr e ↦ rw e (below-Counts h c.previous c.tracked (old_number c) log refl t k)
]
