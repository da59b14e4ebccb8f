-- ===== src/Refresh/Verified.antt =====
-- The states between the events: a job that ended, or none yet, left the roots settled.
use grag.Base.{
  ℕ, ◌+◌, ◌≤◌, ltb, String, str_eq, List, [], ◌∷◌, Option, none, some, Bool, true, false, ◌&&◌,
  ◌||◌, not, if◌then◌else◌, if_inv, All, foldl, ◌≡◌, refl, ◌⊎◌, inl, inr, Option-cases, Bool-cases,
  arith,
}
use grag.Base.Dict.{lookup}
use grag.Refresh.{
  is_set, Refresher, new_refresher, Problem, shut_down, message, Try, value, throws, text_of,
  next_due, schedule, scan_failed, Other, closes, invalidates, asks, act,
}
use grag.Refresh.Cycle.{Round, verify, end_cycle, run_cycle, Event, acts, runs, happen}
use grag.Refresh.Job.{AllSettled, Ended, IsHonestRound, verify-Ended}

-- Between the events.
pub record IsValid (r : Refresher) : Type 0 where
  pub verified : ((r.closed || is_set r.scan_error || r.checking) ≡ true) ⊎ AllSettled r.roots
  pub job : r.checking ≡ true → r.cycle ≡ some r.serial
  pub no_job : r.checking ≡ false → r.cycle ≡ none
  pub completed : r.completed ≤ r.serial

end_cycle-IsValid :
    (serial now : ℕ) (r r' : Refresher) (p : Option Problem)
    → serial ≤ r.serial
    → Ended r p r'
    → IsValid (end_cycle serial now (p, r'))
unfolding end_cycle
end_cycle-IsValid serial now r r' none h i = record {
  verified = inr (i.settled refl);
  job = λ t. absurd cc;
  no_job = λ t. refl;
  completed = rw i.quiet.serial h;
}
end_cycle-IsValid serial now r r' (some shut_down) h i = record {
  verified = inl (ground (arith, i.excused));
  job = λ t. absurd cc;
  no_job = λ t. refl;
  completed = rw i.quiet.serial h;
}
end_cycle-IsValid serial now r r' (some (message text)) h i = record {
  verified = inl (ground (arith, i.excused));
  job = λ t. absurd cc;
  no_job = λ t. refl;
  completed = rw i.quiet.serial h;
}

-- An exception of `jobs.submit` has a text.
abbrev pub is_honest_other : Other → Bool
is_honest_other (asks force now (throws (message text))) = not (str_eq text "")
is_honest_other _ = true

abbrev pub IsHonestEvent : Event → Type 0
IsHonestEvent (acts o) = is_honest_other o ≡ true
IsHonestEvent (runs e) = IsHonestRound e

pub schedule-IsValid :
    (force : Bool) (now : ℕ) (submitted : Try String) (r : Refresher)
    → is_honest_other (asks force now submitted) ≡ true
    → IsValid r
    → IsValid (schedule force now submitted r).1
unfolding schedule
schedule-IsValid force now submitted r h i =
    let asked : Refresher = elim submitted [
      | value id ↦ record r {
        checking = true;
        serial = r.serial + 1;
        job_id = some id;
        cycle = some (r.serial + 1);
      }
      | throws p ↦ scan_failed now (text_of p) (record r { serial = r.serial + 1 })
    ] in
    let P : ℕ × Refresher → Type 0 = λ q. IsValid q.1 in
    if_inv P (r.checking || r.closed) (r.serial, r)
      (if is_set r.scan_error && ltb now (next_due r)
        then (r.serial, r)
        else if not force && ltb now (next_due r)
        then (r.serial, r)
        else (r.serial + 1, asked))
      (λ _. i)
      (λ c.
        if_inv P (is_set r.scan_error && ltb now (next_due r)) (r.serial, r)
          (if not force && ltb now (next_due r) then (r.serial, r) else (r.serial + 1, asked))
          (λ _. i)
          (λ _.
            if_inv P (not force && ltb now (next_due r)) (r.serial, r) (r.serial + 1, asked)
              (λ _. i) (λ _. asked-IsValid submitted r h i (ground (arith, c)))))
  where
    asked-IsValid :
        (submitted : Try String) (r : Refresher)
        → is_honest_other (asks force now submitted) ≡ true
        → IsValid r
        → r.checking ≡ false
        → IsValid (elim submitted [
          | value id ↦ record r {
            checking = true;
            serial = r.serial + 1;
            job_id = some id;
            cycle = some (r.serial + 1);
          }
          | throws p ↦ scan_failed now (text_of p) (record r { serial = r.serial + 1 })
        ])
    asked-IsValid (value id) r h i c = record {
      verified = inl (ground arith);
      job = λ t. refl;
      no_job = λ t. absurd cc;
      completed = omega (arith, i.completed);
    }
    asked-IsValid (throws shut_down) r h i c = record {
      verified = inl (ground arith);
      job = λ t. absurd (ground (arith, t, c));
      no_job = i.no_job;
      completed = omega (arith, i.completed);
    }
    asked-IsValid (throws (message text)) r h i c = record {
      verified = inl (ground (arith, h));
      job = λ t. absurd (ground (arith, t, c));
      no_job = i.no_job;
      completed = omega (arith, i.completed);
    }

act-IsValid : (r : Refresher) (o : Other) → is_honest_other o ≡ true → IsValid r → IsValid (act r o)
act-IsValid r closes h i = record {
  verified = inl refl;
  job = i.job;
  no_job = i.no_job;
  completed = i.completed;
}
act-IsValid r invalidates h i = record {
  verified = i.verified;
  job = i.job;
  no_job = i.no_job;
  completed = i.completed;
}
act-IsValid r (asks force now submitted) h i = schedule-IsValid force now submitted r h i

run_cycle-IsValid :
    (e : Round) (serial : ℕ) (r : Refresher)
    → IsHonestRound e
    → IsValid r
    → r.cycle ≡ some serial
    → IsValid (run_cycle e serial r)
unfolding run_cycle
run_cycle-IsValid e serial r h i c = elim (Bool-cases r.checking) [
  | inr t ↦ absurd (ground (arith, i.no_job t, c))
  | inl t ↦
      let same_serial : serial ≡ r.serial = ground (arith, i.job t, c) in
      end_cycle-IsValid serial e.ended_at r (verify e r).1 (verify e r).0
        (rw same_serial (omega arith)) (verify-Ended e r h t)
]

pub happen-IsValid :
    (r : Refresher) (e : Event) → IsHonestEvent e → IsValid r → IsValid (happen r e)
happen-IsValid r (acts o) h i = act-IsValid r o h i
happen-IsValid r (runs e) h i = elim (Option-cases r.cycle) [
  | inl c ↦ simp (happen, c) i
  | inr (serial, c) ↦ simp (happen, c) (run_cycle-IsValid e serial r h i c)
]

pub events-IsValid :
    (r : Refresher) (events : List Event)
    → All IsHonestEvent events
    → IsValid r
    → IsValid (foldl happen r events)
events-IsValid r [] h i = i
events-IsValid r (e ∷ events) (h, hs) i =
    events-IsValid (happen r e) events hs (happen-IsValid r e h i)

pub new-IsValid :
    (interval retry_base retry_max : ℕ) → IsValid (new_refresher interval retry_base retry_max)
unfolding lookup
new-IsValid interval retry_base retry_max = record {
  verified = inr (λ path s l. absurd cc);
  job = λ t. absurd cc;
  no_job = λ t. refl;
  completed = omega arith;
}
