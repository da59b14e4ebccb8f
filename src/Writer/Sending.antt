-- ===== src/Writer/Sending.antt =====
-- What `_run` and `execute_write` send, and what they leave of the writer.
use grag.Base.{ℕ, List, [], ◌∷◌, Bool, true, false, ◌||◌, not, ◌≡◌, refl, ◌∙◌, ◌⊎◌, inl, inr, arith}
use grag.Base.Result.{Result, returned, raised, Result-cases}
use grag.Limits.{Context, charge, charge_result}
use grag.Writer.{
  Statement, commit, is_commit, Answer, rows, fails, Native, Writer, Act, ◌>>◌, charging,
  clear_prepared_cache, set_timeout, read_rows, send, uncertain,
}

abbrev pub is_returned {ℓ} : {A : Type ℓ} → Result A → Bool
is_returned (returned x) = true
is_returned (raised e) = false

abbrev pub is_rows : Answer → Bool
is_rows (rows r) = true
is_rows (fails f) = false

-- The caches and budgets may differ, nothing else.
pub record Same (w w' : Writer) : Type 0 where
  pub sent : w'.sent ≡ w.sent
  pub owner : w'.owner ≡ w.owner
  pub failed : w'.failed ≡ w.failed
  pub recovery : w'.recovery_required ≡ w.recovery_required

Same-self : (w : Writer) → Same w w
Same-self w = record { sent = refl; owner = refl; failed = refl; recovery = refl }

Same-trans : (u v w : Writer) → Same u v → Same v w → Same u w
Same-trans u v w s t = record {
  sent = t.sent ∙ s.sent;
  owner = t.owner ∙ s.owner;
  failed = t.failed ∙ s.failed;
  recovery = t.recovery ∙ s.recovery;
}

pub charging-Same :
    (action : Context → Result (Unit {0}) × Context) (w : Writer) → Same w (charging action w).1
unfolding charging
charging-Same action w = record { sent = refl; owner = refl; failed = refl; recovery = refl }

>>-Same :
    {A : Type 0} (m : Act (Unit {0})) (k : Act A) (w : Writer)
    → ((v : Writer) → Same v (m v).1)
    → ((v : Writer) → Same v (k v).1)
    → Same w ((m >> k) w).1
unfolding ◌>>◌
>>-Same m k w h j =
    let first = h w in
    let second = j (m w).1 in
    elim (Result-cases (m w).0) [
      | inl (x, e) ↦ rw (◌>>◌, e) (Same-trans w (m w).1 (k (m w).1).1 first second)
      | inr (x, e) ↦ rw (◌>>◌, e) first
    ]

module _ (n : Native) where
  pub clear_prepared_cache-Same : (w : Writer) → Same w (clear_prepared_cache n w).1
  unfolding clear_prepared_cache
  clear_prepared_cache-Same w = ground arith

  pub set_timeout-Same : (milliseconds : ℕ) (w : Writer) → Same w (set_timeout n milliseconds w).1
  unfolding set_timeout
  set_timeout-Same milliseconds w = ground arith

  read_rows-Same : (r : List ℕ) (w : Writer) → Same w (read_rows n r w).1
  unfolding read_rows
  read_rows-Same [] w = Same-self w
  read_rows-Same (bytes ∷ more) w =
      >>-Same (charging (charge "result_rows" 1))
        (charging (charge_result bytes) >> read_rows n more) w
        (charging-Same (charge "result_rows" 1))
        (λ v.
          >>-Same (charging (charge_result bytes)) (read_rows n more) v
            (charging-Same (charge_result bytes)) (read_rows-Same more))

  -- One statement: it is sent once, unless an error comes before; an answer that is no result is
  -- raised; only a commit that was sent and whose call raised asks for recovery.
  pub record Ran (s : Statement) (w : Writer) (r : Result (Unit {0})) (w' : Writer) : Type 0 where
    pub owner : w'.owner ≡ w.owner
    pub failed : w'.failed ≡ w.failed
    pub quiet :
        (is_returned r || not (is_commit s)) ≡ true → w'.recovery_required ≡ w.recovery_required
    pub log :
        ((w'.sent ≡ w.sent)
          × (is_returned r ≡ false)
          × (w'.recovery_required ≡ w.recovery_required))
        ⊎ ((w'.sent ≡ s ∷ w.sent)
            × (is_returned r ≡ true → is_rows (n.answer (s ∷ w.sent)) ≡ true)
            × ((is_returned r || not (is_commit s)) ≡ false → w'.recovery_required ≡ true))

  abbrev pub RanBy : Statement → Writer → Result (Unit {0}) × Writer → Type 0
  RanBy s w p = Ran s w p.0 p.1

  -- Without the part of a commit.
  abbrev pub Sent : Statement → Writer → Result (Unit {0}) × Writer → Type 0
  Sent s w p =
      (p.1.owner ≡ w.owner)
      × (p.1.failed ≡ w.failed)
      × (p.1.recovery_required ≡ w.recovery_required)
      × (p.1.sent ≡ s ∷ w.sent)
      × (is_returned p.0 ≡ true → is_rows (n.answer (s ∷ w.sent)) ≡ true)

  pub send-Sent : (s : Statement) (w : Writer) → Sent s w (send n s w)
  unfolding send
  send-Sent s w = read (n.answer (s ∷ w.sent)) refl
    where
      read : (a : Answer) → n.answer (s ∷ w.sent) ≡ a → Sent s w (send n s w)
      read (rows r) e =
          let same = read_rows-Same r (record w { sent = s ∷ w.sent }) in
          rw (send, e) (same.owner, same.failed, same.recovery, same.sent, λ _. refl)
      read (fails f) e = rw (send, e) (refl, refl, refl, refl, λ h. h)

  pub uncertain-RanBy :
      (w : Writer) (p : Result (Unit {0}) × Writer)
      → Sent commit w p
      → RanBy commit w (uncertain n p)
  unfolding uncertain
  uncertain-RanBy w (returned x, v) (o, f, r, l, a) = record {
    owner = o;
    failed = f;
    quiet = λ _. r;
    log = inr (l, a, λ h. absurd cc);
  }
  uncertain-RanBy w (raised x, v) (o, f, r, l, a) = record {
    owner = o;
    failed = f;
    quiet = λ h. absurd cc;
    log = inr (l, a, λ h. refl);
  }

  pub Sent-RanBy :
      (s : Statement) (w : Writer) (p : Result (Unit {0}) × Writer)
      → is_commit s ≡ false
      → Sent s w p
      → RanBy s w p
  Sent-RanBy s w p h (o, f, r, l, a) = record {
    owner = o;
    failed = f;
    quiet = λ _. r;
    log = inr (l, a, λ t. ground (arith, h, t));
  }

  pub Same-RanBy :
      (s : Statement) (w v : Writer) (p : Result (Unit {0}) × Writer)
      → Same w v
      → RanBy s v p
      → RanBy s w p
  Same-RanBy s w v p m q = record {
    owner = q.owner ∙ m.owner;
    failed = q.failed ∙ m.failed;
    quiet = λ h. q.quiet h ∙ m.recovery;
    log = ground (arith, q.log, m.sent, m.recovery);
  }

  pub >>-RanBy :
      (s : Statement) (m k : Act (Unit {0})) (w : Writer)
      → ((v : Writer) → Same v (m v).1)
      → ((v : Writer) → RanBy s v (k v))
      → RanBy s w ((m >> k) w)
  unfolding ◌>>◌
  >>-RanBy s m k w h j =
      let first = h w in
      elim (Result-cases (m w).0) [
        | inl (x, e) ↦ rw (◌>>◌, e) (Same-RanBy s w (m w).1 (k (m w).1) first (j (m w).1))
        | inr (x, e) ↦
            rw (◌>>◌, e)
              (record {
                owner = first.owner;
                failed = first.failed;
                quiet = λ _. first.recovery;
                log = inl (first.sent, refl, first.recovery);
              })
      ]
