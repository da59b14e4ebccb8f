-- ===== src/Refresh/Waiting.antt =====
-- What a reader that requires fresh data gets, and when a reader stops waiting.
use grag.Base.{
  String, ℕ, ◌+◌, ◌≤◌, leb, List, [], ◌∷◌, Bool, true, false, ◌||◌, if◌then◌else◌, if_inv, All,
  foldl, ◌≡◌, refl, arith,
}
use grag.Refresh.{
  Refresher, Try, asks, FreshnessState, fresh, FreshnessReport, state_of, report, schedule,
}
use grag.Refresh.Cycle.{happen}
use grag.Refresh.Verified.{
  IsValid, IsHonestEvent, is_honest_other, events-IsValid, schedule-IsValid,
}
use grag.Refresh.Fresh.{AllVerified, fresh-AllVerified}
use grag.Refresh.Read.{
  Freshness, allow_stale, wait, require, Wake, Answer, answers, refuses, waits, is_fresh, give_up,
  is_verified, woken, read_loop, read,
}

abbrev pub IsHonestWake : Wake → Type 0
IsHonestWake w =
    All IsHonestEvent w.events × (is_honest_other (asks false w.now w.submitted) ≡ true)

abbrev pub is_answer : Answer → Bool
is_answer (answers r) = true
is_answer _ = false

-- What an answer shows
abbrev pub Shown : ℕ → Answer × Refresher → Type 0
Shown ticket p =
    is_answer p.0 ≡ true
    → (p.0 ≡ answers (report false p.1))
      × (state_of p.1 ≡ fresh)
      × (ticket ≤ p.1.completed)
      × AllVerified p.1.roots

is_fresh-true : (s : FreshnessState) → is_fresh s ≡ true → s ≡ fresh
is_fresh-true s h = ground (arith, h)

woken-IsValid :
    (ticket : ℕ) (w : Wake) (r : Refresher)
    → IsHonestWake w
    → IsValid r
    → IsValid (woken ticket w r)
woken-IsValid ticket w r (h, k) i =
    let r1 = foldl happen r w.events in
    let j = events-IsValid r w.events h i in
    if_inv IsValid (is_verified ticket r1) r1 (schedule false w.now w.submitted r1).1 (λ _. j)
      (λ _. schedule-IsValid false w.now w.submitted r1 k j)

module _ (deadline ticket : ℕ) where
  is_verified-Shown :
      (r : Refresher)
      → IsValid r
      → is_verified ticket r ≡ true
      → Shown ticket (answers (report false r), r)
  is_verified-Shown r i t h =
      let f = is_fresh-true (state_of r) (ground (arith, t)) in
      (refl, f, ground (arith, t), fresh-AllVerified r i f)

  read_loop-Shown :
      (now : ℕ) (wakes : List Wake) (r : Refresher)
      → All IsHonestWake wakes
      → IsValid r
      → Shown ticket (read_loop require deadline ticket now wakes r)
  unfolding read_loop
  read_loop-Shown now [] r h i =
      if_inv (Shown ticket) (is_verified ticket r) (answers (report false r), r)
        (if leb deadline now || r.closed
          then (refuses (report (leb deadline now) r), r)
          else (waits, r))
        (λ t. is_verified-Shown r i t)
        (λ _.
          if_inv (Shown ticket) (leb deadline now || r.closed)
            (refuses (report (leb deadline now) r), r) (waits, r) (λ _ t. absurd cc)
            (λ _ t. absurd cc))
  read_loop-Shown now (w ∷ wakes) r (h, hs) i =
      let rest = read_loop require deadline ticket w.now wakes (woken ticket w r) in
      let j = read_loop-Shown w.now wakes (woken ticket w r) hs (woken-IsValid ticket w r h i) in
      if_inv (Shown ticket) (is_verified ticket r) (answers (report false r), r)
        (if leb deadline now || r.closed then (refuses (report (leb deadline now) r), r) else rest)
        (λ t. is_verified-Shown r i t)
        (λ _.
          if_inv (Shown ticket) (leb deadline now || r.closed)
            (refuses (report (leb deadline now) r), r) rest (λ _ t. absurd cc) (λ _. j))

-- A reader that requires fresh data, from a valid state and with honest events: if it is answered,
-- then with the report of that time, which is `fresh`; the job that it asked for or found is
-- completed, and the last scan of each root is of the generation that its index was made from.
pub read-Shown :
    (timeout now : ℕ) (submitted : Try String) (wakes : List Wake) (r : Refresher)
    → is_honest_other (asks true now submitted) ≡ true
    → All IsHonestWake wakes
    → IsValid r
    → Shown (schedule true now submitted r).0 (read require timeout now submitted wakes r)
unfolding read
read-Shown timeout now submitted wakes r k h i =
    read_loop-Shown (now + timeout) (schedule true now submitted r).0 now wakes
      (schedule true now submitted r).1 h (schedule-IsValid true now submitted r k i)

-- The clock at the last wake
abbrev pub last_now : ℕ → List Wake → ℕ
last_now now [] = now
last_now now (w ∷ wakes) = last_now w.now wakes

-- An answer, or a refusal of a reader that requires fresh data.
abbrev pub has_ended : Freshness → Answer → Bool
has_ended require (refuses r) = true
has_ended mode (answers r) = true
has_ended mode a = false

give_up-ended : (mode : Freshness) (r : FreshnessReport) → has_ended mode (give_up mode r) ≡ true
give_up-ended allow_stale r = refl
give_up-ended wait r = refl
give_up-ended require r = refl

answers-ended : (mode : Freshness) (r : FreshnessReport) → has_ended mode (answers r) ≡ true
answers-ended allow_stale r = refl
answers-ended wait r = refl
answers-ended require r = refl

abbrev Ended : Freshness → Answer × Refresher → Type 0
Ended mode p = has_ended mode p.0 ≡ true

read_loop-Ended :
    (mode : Freshness) (deadline ticket now : ℕ) (wakes : List Wake) (r : Refresher)
    → deadline ≤ last_now now wakes
    → Ended mode (read_loop mode deadline ticket now wakes r)
unfolding read_loop
read_loop-Ended mode deadline ticket now [] r h =
    let given = report (leb deadline now) r in
    if_inv (Ended mode) (is_verified ticket r) (answers (report false r), r)
      (if leb deadline now || r.closed then (give_up mode given, r) else (waits, r))
      (λ _. answers-ended mode (report false r))
      (λ _.
        if_inv (Ended mode) (leb deadline now || r.closed) (give_up mode given, r) (waits, r)
          (λ _. give_up-ended mode given) (λ t. absurd (ground (arith, t, h))))
read_loop-Ended mode deadline ticket now (w ∷ wakes) r h =
    let given = report (leb deadline now) r in
    let rest = read_loop mode deadline ticket w.now wakes (woken ticket w r) in
    if_inv (Ended mode) (is_verified ticket r) (answers (report false r), r)
      (if leb deadline now || r.closed then (give_up mode given, r) else rest)
      (λ _. answers-ended mode (report false r))
      (λ _.
        if_inv (Ended mode) (leb deadline now || r.closed) (give_up mode given, r) rest
          (λ _. give_up-ended mode given)
          (λ _. read_loop-Ended mode deadline ticket w.now wakes (woken ticket w r) h))

-- Where the last wake is at or after the deadline, a call of `read` has ended by then, whatever
-- happened meanwhile: with an answer or, only if it requires fresh data, with a refusal.
pub read-ends :
    (mode : Freshness) (timeout now : ℕ) (submitted : Try String) (wakes : List Wake)
    (r : Refresher)
    → now + timeout ≤ last_now now wakes
    → has_ended mode (read mode timeout now submitted wakes r).0 ≡ true
unfolding read
read-ends allow_stale timeout now submitted wakes r h = refl
read-ends wait timeout now submitted wakes r h =
    let (ticket, r1) = schedule true now submitted r in
    read_loop-Ended wait (now + timeout) ticket now wakes r1 h
read-ends require timeout now submitted wakes r h =
    let (ticket, r1) = schedule true now submitted r in
    read_loop-Ended require (now + timeout) ticket now wakes r1 h
