-- ===== src/Refresh/Job.antt =====
-- What the job leaves of the roots, and how it ends.
use grag.Base.{
  ◌+◌, String, str_eq, eq_iff, List, [], ◌∷◌, Option, none, some, true, false, if◌then◌else◌,
  if_inv, foldl, ◌≡◌, refl, sym, ◌∙◌, ◌⊎◌, inl, inr, Bool-cases, arith,
}
use grag.Base.Dict.{Dict, lookup, contains, keys}
use mathlib.Core.Path.{subst}
use grag.Refresh.{RootState, Refresher, Problem, shut_down, value, throws, act}
use grag.Refresh.Cycle.{
  IndexRecord, calling, check_root, Round, roots_of, check_roots, conclude, verify_records, verify,
}
use grag.Refresh.Roots.{
  is_settled, is_honest, IsHonest, Quiet, Quiet-self, Quiet-trans, acts-Quiet, is_excused, excuse,
}
use grag.Refresh.Parts.{Try-cases}
use grag.Refresh.Check.{Checked, check_root-Checked}

abbrev pub AllSettled : Dict RootState → Type 0
AllSettled roots =
    (path : String) (s : RootState) → lookup path roots ≡ some s → is_settled s ≡ true

-- The roots that are not in the list are settled.
abbrev SettledBut : List String → Dict RootState → Type 0
SettledBut ks roots =
    (path : String) (s : RootState)
    → lookup path roots ≡ some s
    → (contains ks path ≡ true) ⊎ (is_settled s ≡ true)

-- The job ended, or raised.
pub record Ended (r : Refresher) (p : Option Problem) (r' : Refresher) : Type 0 where
  pub quiet : Quiet r r'
  pub excused : is_excused p r' ≡ true
  pub settled : p ≡ none → AllSettled r'.roots

abbrev pub EndedBy : Refresher → Option Problem × Refresher → Type 0
EndedBy r q = Ended r q.0 q.1

settled_step :
    (path : String) (ks : List String) (r r1 : Refresher)
    → SettledBut (path ∷ ks) r.roots
    → Checked path r none r1
    → SettledBut ks r1.roots
unfolding contains
settled_step path ks r r1 h q j s l = elim (Bool-cases (str_eq path j)) [
  | inl e ↦ inr (q.settled refl s (rw ((eq_iff path j).0 e) l))
  | inr e ↦ ground (arith, h j s (sym (q.kept.others j e) ∙ l), e)
]

visited-Ended :
    (path : String) (r : Refresher) (p : Option Problem) (r1 : Refresher)
    (rest : Option Problem × Refresher)
    → Checked path r p r1
    → (p ≡ none → EndedBy r1 rest)
    → EndedBy r (elim p [ none ↦ rest | some x ↦ (some x, r1) ])
visited-Ended path r none r1 rest q i = record {
  quiet = Quiet-trans r r1 rest.1 q.kept.quiet (i refl).quiet;
  excused = (i refl).excused;
  settled = (i refl).settled;
}
visited-Ended path r (some x) r1 rest q i = record {
  quiet = q.kept.quiet;
  excused = q.excused;
  settled = λ u. absurd cc;
}

check_roots-Ended :
    (e : Round) (records : Dict IndexRecord) (r : Refresher)
    → ((path : String) → IsHonest (e.visits path))
    → r.checking ≡ true
    → SettledBut (keys records) r.roots
    → EndedBy r (check_roots e records r)
unfolding check_roots keys contains
check_roots-Ended e [] r h c s = record {
  quiet = Quiet-self r c;
  excused = refl;
  settled = λ _ path x l. ground (arith, s path x l);
}
check_roots-Ended e ((path, record_) ∷ records) r h c s =
    let q = check_root-Checked (e.visits path) path record_ r (h path) c in
    let (p, r1) = check_root (e.visits path) path record_ r in
    let rest = check_roots e records r1 in
    if_inv (EndedBy r) r.closed (some shut_down, r) (elim p [ none ↦ rest | some x ↦ (some x, r1) ])
      (λ t. record { quiet = Quiet-self r c; excused = t; settled = λ u. absurd cc })
      (λ _. visited-Ended path r p r1 rest q (λ u.
        check_roots-Ended e records r1 h q.kept.quiet.checking
          (settled_step path (keys records) r r1 s (subst (λ t. Checked path r t r1) u q))))

roots_of-keys :
    (roots : Dict RootState) (records : Dict IndexRecord)
    → SettledBut (keys records) (roots_of roots records)
unfolding roots_of keys contains lookup
roots_of-keys roots [] path s l = absurd cc
roots_of-keys roots ((j, record_) ∷ records) path s l =
    ground (arith, roots_of-keys roots records path s, l)

-- The environment of a job.
pub record IsHonestRound (e : Round) : Type 0 where
  pub listing : is_honest e.listing.others e.listing.outcome ≡ true
  pub visits : (path : String) → IsHonest (e.visits path)

conclude-Ended :
    (e : Round) (r : Refresher) → r.checking ≡ true → AllSettled r.roots → EndedBy r (conclude e r)
unfolding conclude
conclude-Ended e r c s =
    if_inv (EndedBy r) r.closed (some shut_down, r)
      (
        none,
        record r {
          checked_at = some e.stamp;
          next_check = if r.rescan then 0 else e.ended_at + r.interval;
        },
      )
      (λ t. record { quiet = Quiet-self r c; excused = t; settled = λ u. absurd cc })
      (λ _. record {
        quiet = record {
          closed = λ t. t;
          checking = c;
          cycle = refl;
          serial = refl;
          completed = refl;
        };
        excused = refl;
        settled = λ _. s;
      })

concluded-Ended :
    (e : Round) (r : Refresher) (p : Option Problem) (r1 : Refresher)
    → Ended r p r1
    → let rest = conclude e (foldl act r1 e.last) in
      EndedBy r (elim p [ none ↦ rest | some x ↦ (some x, r1) ])
concluded-Ended e r none r1 i =
    let (q, same_roots) = acts-Quiet r1 e.last i.quiet.checking in
    let r2 = foldl act r1 e.last in
    let j = conclude-Ended e r2 q.checking (subst AllSettled (sym same_roots) (i.settled refl)) in
    record {
      quiet =
          Quiet-trans r r1 (conclude e r2).1 i.quiet
            (Quiet-trans r1 r2 (conclude e r2).1 q j.quiet);
      excused = j.excused;
      settled = j.settled;
    }
concluded-Ended e r (some x) r1 i = i

verify_records-Ended :
    (e : Round) (records : Dict IndexRecord) (r : Refresher)
    → IsHonestRound e
    → r.checking ≡ true
    → EndedBy r (verify_records e records r)
unfolding verify_records
verify_records-Ended e records r h c =
    let r1 : Refresher = record r {
      roots = roots_of r.roots records;
      scan_error = none;
      scan_failures = 0;
    } in
    let i = check_roots-Ended e records r1 h.visits c (roots_of-keys r.roots records) in
    let q : Quiet r r1 = record {
      closed = λ t. t;
      checking = c;
      cycle = refl;
      serial = refl;
      completed = refl;
    } in
    concluded-Ended e r (check_roots e records r1).0 (check_roots e records r1).1 (record {
      quiet = Quiet-trans r r1 (check_roots e records r1).1 q i.quiet;
      excused = i.excused;
      settled = i.settled;
    })

listed-Ended :
    (e : Round) (r : Refresher)
    → IsHonestRound e
    → r.checking ≡ true
    → let r1 = calling e.listing r in
      EndedBy r (elim e.listing.outcome [
        | throws p ↦ (some p, r1)
        | value records ↦ verify_records e records r1
      ])
listed-Ended e r h c =
    let r1 = calling e.listing r in
    let q = (acts-Quiet r e.listing.others c).0 in
    elim (Try-cases e.listing.outcome) [
      | inr (p, f) ↦ rw f (record {
        quiet = q;
        excused =
            excuse (Dict IndexRecord) r e.listing.others p c
              (subst (λ o. is_honest e.listing.others o ≡ true) f h.listing);
        settled = λ u. absurd cc;
      })
      | inl (records, f) ↦
          let i = verify_records-Ended e records r1 h q.checking in
          rw f (record {
            quiet = Quiet-trans r r1 (verify_records e records r1).1 q i.quiet;
            excused = i.excused;
            settled = i.settled;
          })
    ]

pub verify-Ended :
    (e : Round) (r : Refresher) → IsHonestRound e → r.checking ≡ true → EndedBy r (verify e r)
unfolding verify
verify-Ended e r0 h c =
    let r1 : Refresher = record r0 { rescan = false } in
    let r = calling e.listing r1 in
    let q0 : Quiet r0 r1 = record {
      closed = λ t. t;
      checking = c;
      cycle = refl;
      serial = refl;
      completed = refl;
    } in
    let rest : Option Problem × Refresher = elim e.listing.outcome [
      | throws p ↦ (some p, r)
      | value records ↦ verify_records e records r
    ] in
    let i = listed-Ended e r1 h c in
    if_inv (EndedBy r0) r1.closed (some shut_down, r1) rest
      (λ t. record { quiet = q0; excused = t; settled = λ u. absurd cc })
      (λ _. record {
        quiet = Quiet-trans r0 r1 rest.1 q0 i.quiet;
        excused = i.excused;
        settled = i.settled;
      })
