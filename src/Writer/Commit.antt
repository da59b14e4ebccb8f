-- ===== src/Writer/Commit.antt =====
-- What a transaction has sent when it returns, and when it raises.
use grag.Base.{
  ℕ, ◌+◌, String, List, [], ◌∷◌, none, some, Bool, true, false, ◌||◌, if◌then◌else◌, if_inv, ◌≡◌,
  refl, ◌∙◌, ◌⊎◌, inl, inr, arith,
}
use grag.Base.Result.{
  GragError, Result, returned, raised, Result-cases, transaction_outcome_unknown,
}
use grag.Writer.{
  Statement, commit, rollback, other, is_commit, Native, Writer, ◌>>◌, eq_option,
  clear_prepared_cache, run, poison, execute_write, Body, ends, executes, joins, nests, nested,
  run_body, nothing_to_roll_back, roll_back, attempt, inside,
}
use grag.Writer.Sending.{is_returned, is_rows}
use grag.Writer.Execute.{Wrote, execute_write-WroteBy, run_clear-RanBy}

-- The commits that were sent.
unfoldable pub commits : List Statement → ℕ
commits [] = 0
commits (s ∷ log) = if is_commit s then commits log + 1 else commits log

-- Each statement since a log had a result.
pub data Accepted (n : Native) (base : List Statement) : List Statement → Type 0 where
  same : {log : List Statement} → log ≡ base → Accepted n base log
  next :
      {log : List Statement} (s : Statement)
      → is_rows (n.answer (s ∷ log)) ≡ true
      → Accepted n base log
      → Accepted n base (s ∷ log)

module _ (n : Native) (me : ℕ) (base : List Statement) where
  -- A writer in a transaction of this thread that began after `base`.
  pub record Inside (count : ℕ) (recovery : Bool) (w : Writer) : Type 0 where
    pub owner : w.owner ≡ some me
    pub clean : ((w.failed || w.recovery_required) ≡ true) ⊎ Accepted n base w.sent
    pub no_commit : commits w.sent ≡ count
    pub same_recovery : w.recovery_required ≡ recovery

  clean_after :
      (s : Statement) (w : Writer) (r : Result (Unit {0})) (w' : Writer)
      → w.owner ≡ some me
      → Wrote n me s w r w'
      → ((w.failed || w.recovery_required) ≡ true) ⊎ Accepted n base w.sent
      → ((w'.failed || w'.recovery_required) ≡ true) ⊎ Accepted n base w'.sent
  clean_after s w r w' o q (inl b) = inl (q.blocked b).2
  clean_after s w (raised x) w' o q (inr a) = inl (q.poisoned refl o)
  clean_after s w (returned x) w' o q (inr a) = elim q.log [
    | inl (l, f, g) ↦ absurd cc
    | inr (l, f, g) ↦ rw l (inr (next s (f refl) a))
  ]

  execute-Inside :
      (count : ℕ) (recovery ddl : Bool) (text : String) (w : Writer)
      → Inside count recovery w
      → Inside count recovery (execute_write n me (other ddl text) w).1
  unfolding commits
  execute-Inside count recovery ddl text w i =
      let q = execute_write-WroteBy n me (other ddl text) w in
      let p = execute_write n me (other ddl text) w in
      record {
        owner = q.owner ∙ i.owner;
        clean = clean_after (other ddl text) w p.0 p.1 i.owner q i.clean;
        no_commit = ground (arith, q.log, i.no_commit);
        same_recovery = ground (arith, q.quiet, i.same_recovery);
      }

  poison-Inside :
      (count : ℕ) (recovery : Bool) (p : Result (Unit {0}) × Writer)
      → Inside count recovery p.1
      → Inside count recovery (poison n me p).1
  unfolding poison
  poison-Inside count recovery (returned x, w) i = i
  poison-Inside count recovery (raised x, w) i =
      if_inv (Inside count recovery) (eq_option w.owner me) (record w { failed = true }) w
        (λ _. record {
          owner = i.owner;
          clean = inl refl;
          no_commit = i.no_commit;
          same_recovery = i.same_recovery;
        })
        (λ _. i)

  run_body-Inside :
      (count : ℕ) (recovery : Bool) (b : Body) (w : Writer)
      → Inside count recovery w
      → Inside count recovery (run_body n me b w).1
  unfolding run_body
  run_body-Inside count recovery (ends r) w i = i
  run_body-Inside count recovery (executes ddl text k) w i =
      let p = execute_write n me (other ddl text) w in
      run_body-Inside count recovery (k p.0) p.1 (execute-Inside count recovery ddl text w i)
  run_body-Inside count recovery (joins b k) w i =
      let p = poison n me (run_body n me b w) in
      run_body-Inside count recovery (k p.0) p.1
        (poison-Inside count recovery (run_body n me b w) (run_body-Inside count recovery b w i))
  run_body-Inside count recovery (nests k) w i =
      run_body-Inside count recovery (k (raised nested)) w i

-- A transaction that returned: all that it sent, the commit last, had a result.
abbrev pub Committed : Native → List Statement → Writer → Type 0
Committed n base w =
    (log : List Statement) × (w.sent ≡ commit ∷ log)
    × Accepted n base (commit ∷ log)
    × (commits log ≡ commits base)

-- A transaction that raised: no commit was sent, or the writer takes no more statements.
abbrev pub Uncommitted : ℕ → Writer → Type 0
Uncommitted count w = (w.recovery_required ≡ true) ⊎ (commits w.sent ≡ count)

module _ (n : Native) (me : ℕ) (base : List Statement) where
  -- How the body and the commit, and then the transaction, end.
  abbrev pub Ended : Result (Unit {0}) × Writer → Type 0
  Ended p =
      (is_returned p.0 ≡ true → Committed n base p.1)
      × (is_returned p.0 ≡ false → Uncommitted (commits base) p.1)

  commit-Ended :
      (w : Writer) → Inside n me base (commits base) false w → Ended (execute_write n me commit w)
  unfolding commits
  commit-Ended w i =
      let p = execute_write n me commit w in
      let q = execute_write-WroteBy n me commit w in
      (λ h. committed w p.0 p.1 i h q, λ h. ground (arith, q.log, h, i.no_commit))
    where
      committed :
          (w : Writer) (r : Result (Unit {0})) (w' : Writer)
          → Inside n me base (commits base) false w
          → is_returned r ≡ true
          → Wrote n me commit w r w'
          → Committed n base w'
      committed w r w' i h q = elim q.log [
        | inl (l, f, g) ↦ absurd (ground (arith, h, f))
        | inr (l, f, g) ↦ elim i.clean [
          | inl b ↦ absurd (ground (arith, (q.blocked b).0, h))
          | inr a ↦ (w.sent, l, next commit (f h) a, i.no_commit)
        ]
      ]

  attempt-Ended :
      (b : Body) (w : Writer) → Inside n me base (commits base) false w → Ended (attempt n me b w)
  unfolding attempt ◌>>◌
  attempt-Ended b w i =
      let v = (run_body n me b w).1 in
      let j = run_body-Inside n me base (commits base) false b w i in
      elim (Result-cases (run_body n me b w).0) [
        | inl (x, e) ↦ rw (attempt, ◌>>◌, e) (commit-Ended v j)
        | inr (x, e) ↦ rw (attempt, ◌>>◌, e) (λ h. absurd cc, λ h. inr j.no_commit)
      ]

  roll_back-Uncommitted :
      (e : GragError) (w : Writer)
      → Uncommitted (commits base) w
      → (is_returned (roll_back n me e w).0 ≡ false)
        × Uncommitted (commits base) (roll_back n me e w).1
  unfolding roll_back commits
  roll_back-Uncommitted e w u =
      let p = (clear_prepared_cache n >> run n rollback) w in
      let q = run_clear-RanBy n rollback w in
      let kept : Uncommitted (commits base) p.1 = ground (arith, u, q.log) in
      elim (Result-cases p.0) [
        | inl (x, h) ↦ rw (roll_back, h) (refl, kept)
        | inr (x, h) ↦
            rw (roll_back, h)
              (if_inv
                (λ (r : Result (Unit {0}) × Writer).
                  (is_returned r.0 ≡ false) × Uncommitted (commits base) r.1)
                (nothing_to_roll_back n me x) (raised e, p.1)
                (raised transaction_outcome_unknown, record p.1 { recovery_required = true })
                (λ _. (refl, kept)) (λ _. (refl, inl refl)))
      ]

  pub inside-Ended :
      (b : Body) (w : Writer)
      → Inside n me base (commits base) false w
      → Ended (inside n me b w)
        × ((inside n me b w).1.owner ≡ none)
        × ((inside n me b w).1.failed ≡ false)
  unfolding inside
  inside-Ended b w i =
      let p = attempt n me b w in
      let (done, broken) = attempt-Ended b w i in
      elim (Result-cases p.0) [
        | inl (x, e) ↦ rw (inside, e) ((λ h. done (ground (arith, e)), λ h. absurd cc), refl, refl)
        | inr (x, e) ↦
            let (raises, u) = roll_back-Uncommitted x p.1 (broken (ground (arith, e))) in
            rw (inside, e) ((λ h. absurd (ground (arith, h, raises)), λ h. u), refl, refl)
      ]
