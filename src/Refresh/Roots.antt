-- ===== src/Refresh/Roots.antt =====
-- What `_check_root` leaves of the roots and of the job.
use grag.Base.{
  ℕ, String, str_eq, eq_iff, List, [], ◌∷◌, Option, none, some, Bool, true, false, ◌&&◌, ◌||◌, not,
  foldl, ◌≡◌, refl, ◌∙◌, arith,
}
use grag.Base.Dict.{lookup, lookup-insert}
use grag.Refresh.{
  is_set, same, RootState, Refresher, Problem, shut_down, message, Try, value, throws, schedule,
  Other, closes, invalidates, asks, act,
}
use grag.Refresh.Cycle.{Call, calling, Visit, store}

-- A failure or a change is recorded for the root, or its last scan is what its index was made from.
abbrev pub is_settled : RootState → Bool
is_settled s =
    is_set s.error
    || s.unknown
    || is_set s.pending
    || (is_set s.observed && same s.observed s.successful)

unfoldable pub has_close : List Other → Bool
has_close [] = false
has_close (closes ∷ others) = true
has_close (o ∷ others) = has_close others

-- An exception has a text, and shutdown is raised only after `close`.
abbrev pub is_honest {ℓ} : {A : Type ℓ} → List Other → Try A → Bool
is_honest others (value x) = true
is_honest others (throws shut_down) = has_close others
is_honest others (throws (message text)) = not (str_eq text "")

abbrev pub has_value : Try String → Bool
has_value (value generation) = not (str_eq generation "")
has_value (throws p) = true

-- The environment of a root's check: its calls are honest, and a generation is not empty.
pub record IsHonest (v : Visit) : Type 0 where
  pub scan : is_honest v.scan.others v.scan.outcome ≡ true
  pub latest : is_honest v.latest.others v.latest.outcome ≡ true
  pub ingest : is_honest v.ingest.others v.ingest.outcome ≡ true
  pub after : is_honest v.after.others v.after.outcome ≡ true
  pub rescan : is_honest v.rescan.others v.rescan.outcome ≡ true
  pub generation : has_value v.scan.outcome ≡ true
  pub current : has_value v.rescan.outcome ≡ true

-- What other threads leave while the job has not ended.
pub record Quiet (r r' : Refresher) : Type 0 where
  pub closed : r.closed ≡ true → r'.closed ≡ true
  pub checking : r'.checking ≡ true
  pub cycle : r'.cycle ≡ r.cycle
  pub serial : r'.serial ≡ r.serial
  pub completed : r'.completed ≡ r.completed

pub Quiet-self : (r : Refresher) → r.checking ≡ true → Quiet r r
Quiet-self r c = record {
  closed = λ h. h;
  checking = c;
  cycle = refl;
  serial = refl;
  completed = refl;
}

pub Quiet-trans : (a b c : Refresher) → Quiet a b → Quiet b c → Quiet a c
Quiet-trans a b c p q = record {
  closed = λ h. q.closed (p.closed h);
  checking = q.checking;
  cycle = q.cycle ∙ p.cycle;
  serial = q.serial ∙ p.serial;
  completed = q.completed ∙ p.completed;
}

pub schedule_checking :
    (force : Bool) (now : ℕ) (submitted : Try String) (r : Refresher)
    → r.checking ≡ true
    → schedule force now submitted r ≡ (r.serial, r)
unfolding schedule
schedule_checking force now submitted r c = simp (schedule, c)

act-Quiet :
    (r : Refresher) (o : Other)
    → r.checking ≡ true
    → Quiet r (act r o) × ((act r o).roots ≡ r.roots)
act-Quiet r closes c = (
  record { closed = λ h. refl; checking = c; cycle = refl; serial = refl; completed = refl },
  refl,
)
act-Quiet r invalidates c =
    (record { closed = λ h. h; checking = c; cycle = refl; serial = refl; completed = refl }, refl)
act-Quiet r (asks force now submitted) c =
    rw (act, schedule_checking force now submitted r c) (Quiet-self r c, refl)

pub acts-Quiet :
    (r : Refresher) (others : List Other)
    → r.checking ≡ true
    → Quiet r (foldl act r others) × ((foldl act r others).roots ≡ r.roots)
acts-Quiet r [] c = (Quiet-self r c, refl)
acts-Quiet r (o ∷ others) c =
    let (q, e) = act-Quiet r o c in
    let (p, f) = acts-Quiet (act r o) others q.checking in
    (Quiet-trans r (act r o) (foldl act (act r o) others) q p, f ∙ e)

pub acts-closes :
    (r : Refresher) (others : List Other)
    → r.checking ≡ true
    → has_close others ≡ true
    → (foldl act r others).closed ≡ true
unfolding has_close
acts-closes r [] c h = absurd cc
acts-closes r (closes ∷ others) c h = (acts-Quiet (act r closes) others c).0.closed refl
acts-closes r (invalidates ∷ others) c h = acts-closes (act r invalidates) others c h
acts-closes r (asks force now submitted ∷ others) c h =
    acts-closes (act r (asks force now submitted)) others
      (act-Quiet r (asks force now submitted) c).0.checking h

-- An exception with which a part may end.
abbrev pub is_excused : Option Problem → Refresher → Bool
is_excused none r = true
is_excused (some shut_down) r = r.closed
is_excused (some (message text)) r = not (str_eq text "")

pub excuse {ℓ} :
    (A : Type ℓ) (r : Refresher) (others : List Other) (p : Problem)
    → r.checking ≡ true
    → is_honest {A = A} others (throws p) ≡ true
    → is_excused (some p) (foldl act r others) ≡ true
excuse A r others shut_down c h = acts-closes r others c h
excuse A r others (message text) c h = h

-- The other roots stay.
pub record Kept (path : String) (r r' : Refresher) : Type 0 where
  pub quiet : Quiet r r'
  pub others : (j : String) → str_eq path j ≡ false → lookup j r'.roots ≡ lookup j r.roots

pub Kept-trans : (path : String) (a b c : Refresher) → Kept path a b → Kept path b c → Kept path a c
Kept-trans path a b c p q = record {
  quiet = Quiet-trans a b c p.quiet q.quiet;
  others = λ j h. q.others j h ∙ p.others j h;
}

pub calling-Kept :
    {A : Type 0} (path : String) (c : Call A) (r : Refresher)
    → r.checking ≡ true
    → Kept path r (calling c r) × (lookup path (calling c r).roots ≡ lookup path r.roots)
calling-Kept path c r h =
    let (q, e) = acts-Quiet r c.others h in
    (record { quiet = q; others = λ j t. rw e refl }, rw e refl)

pub store-Kept :
    (path : String) (s : RootState) (r : Refresher)
    → r.checking ≡ true
    → Kept path r (store path s r) × (lookup path (store path s r).roots ≡ some s)
store-Kept path s r h = (
  record {
    quiet = record { closed = λ t. t; checking = h; cycle = refl; serial = refl; completed = refl };
    others = λ j t. ground (arith, lookup-insert path j s r.roots, t);
  },
  ground (arith, lookup-insert path path s r.roots, eq_iff path path),
)
