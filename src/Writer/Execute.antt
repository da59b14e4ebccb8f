-- ===== src/Writer/Execute.antt =====
-- `_run` and `execute_write` on each of their branches.
use grag.Base.{
  ℕ, ◌+◌, [], ◌∷◌, none, some, true, false, ◌||◌, not, if◌then◌else◌, if_inv, ◌≡◌, refl, ◌∙◌, ◌⊎◌,
  inl, arith,
}
use grag.Base.Result.{Result, returned, raised, transaction_outcome_unknown, cypher_error}
use grag.Limits.{charge}
use grag.Writer.{
  Statement, begin_transaction, commit, rollback, checkpoint, other, is_commit, changes_catalog,
  Native, Writer, ◌>>◌, charging, eq_option, clear_prepared_cache, set_timeout, send, uncertain,
  run, poison, execute_write,
}
use grag.Writer.Sending.{
  is_returned, is_rows, charging-Same, clear_prepared_cache-Same, set_timeout-Same, RanBy,
  send-Sent, Sent-RanBy, uncertain-RanBy, >>-RanBy,
}

eq_option-some : (me : ℕ) → eq_option (some me) me ≡ true
eq_option-some me = ground arith

module _ (n : Native) where
  run_query-RanBy :
      (s : Statement) (w : Writer)
      → is_commit s ≡ false
      → RanBy n s w
          ((charging (charge "statements" 1) >> (set_timeout n n.statement_timeout >> send n s)) w)
  run_query-RanBy s w h =
      >>-RanBy n s (charging (charge "statements" 1))
        (set_timeout n n.statement_timeout >> send n s) w (charging-Same (charge "statements" 1))
        (λ v.
          >>-RanBy n s (set_timeout n n.statement_timeout) (send n s) v
            (set_timeout-Same n n.statement_timeout)
            (λ u. Sent-RanBy n s u (send n s u) h (send-Sent n s u)))

  run_completion-RanBy :
      (s : Statement) (w : Writer)
      → is_commit s ≡ false
      → RanBy n s w ((set_timeout n 0 >> send n s) w)
  run_completion-RanBy s w h =
      >>-RanBy n s (set_timeout n 0) (send n s) w (set_timeout-Same n 0)
        (λ u. Sent-RanBy n s u (send n s u) h (send-Sent n s u))

  pub run-RanBy : (s : Statement) (w : Writer) → RanBy n s w (run n s w)
  unfolding run
  run-RanBy begin_transaction w = run_query-RanBy begin_transaction w refl
  run-RanBy (other ddl text) w = run_query-RanBy (other ddl text) w refl
  run-RanBy rollback w = run_completion-RanBy rollback w refl
  run-RanBy checkpoint w = run_completion-RanBy checkpoint w refl
  run-RanBy commit w =
      >>-RanBy n commit (set_timeout n 0) (λ u. uncertain n (send n commit u)) w
        (set_timeout-Same n 0) (λ u. uncertain-RanBy n u (send n commit u) (send-Sent n commit u))

  pub run_clear-RanBy :
      (s : Statement) (w : Writer) → RanBy n s w ((clear_prepared_cache n >> run n s) w)
  run_clear-RanBy s w =
      >>-RanBy n s (clear_prepared_cache n) (run n s) w (clear_prepared_cache-Same n) (run-RanBy s)

  -- A call of `execute_write`.
  pub record Wrote (me : ℕ) (s : Statement) (w : Writer) (r : Result (Unit {0})) (w' : Writer)
      : Type 0 where
    pub owner : w'.owner ≡ w.owner
    pub quiet :
        (is_returned r || not (is_commit s)) ≡ true → w'.recovery_required ≡ w.recovery_required
    pub log :
        ((w'.sent ≡ w.sent)
          × (is_returned r ≡ false)
          × (w'.recovery_required ≡ w.recovery_required))
        ⊎ ((w'.sent ≡ s ∷ w.sent)
            × (is_returned r ≡ true → is_rows (n.answer (s ∷ w.sent)) ≡ true)
            × ((is_returned r || not (is_commit s)) ≡ false → w'.recovery_required ≡ true))
    pub open_writer :
        is_returned r ≡ true
        → (w.failed ≡ false) × (w.recovery_required ≡ false) × (w'.failed ≡ false)
    pub poisoned :
        is_returned r ≡ false → w.owner ≡ some me → (w'.failed || w'.recovery_required) ≡ true
    pub unowned : w.owner ≡ none → w'.failed ≡ w.failed
    pub blocked :
        (w.failed || w.recovery_required) ≡ true
        → (is_returned r ≡ false)
          × (w'.sent ≡ w.sent)
          × ((w'.failed || w'.recovery_required) ≡ true)
          × (w'.recovery_required ≡ w.recovery_required)

  abbrev pub WroteBy : ℕ → Statement → Writer → Result (Unit {0}) × Writer → Type 0
  WroteBy me s w p = Wrote me s w p.0 p.1

  poison-WroteBy :
      (me : ℕ) (s : Statement) (w : Writer) (p : Result (Unit {0}) × Writer)
      → w.recovery_required ≡ false
      → w.failed ≡ false
      → RanBy n s w p
      → WroteBy me s w (poison n me p)
  unfolding poison
  poison-WroteBy me s w (returned x, v) h f q = record {
    owner = q.owner;
    quiet = q.quiet;
    log = q.log;
    open_writer = λ _. (f, h, q.failed ∙ f);
    poisoned = λ t. absurd cc;
    unowned = λ _. q.failed;
    blocked = λ t. absurd (ground (arith, t, h, f));
  }
  poison-WroteBy me s w (raised x, v) h f q = record {
    owner = ground (arith, q.owner);
    quiet = λ t. ground (arith, q.quiet, t);
    log = ground (arith, q.log);
    open_writer = λ t. absurd cc;
    poisoned = λ _ t. ground (arith, q.owner, t, eq_option-some me);
    unowned = λ t. ground (arith, q.owner, q.failed, t);
    blocked = λ t. absurd (ground (arith, t, h, f));
  }

  pub execute_write-WroteBy :
      (me : ℕ) (s : Statement) (w : Writer) → WroteBy me s w (execute_write n me s w)
  unfolding execute_write
  execute_write-WroteBy me s w =
      let w' : Writer = record w {
        schema_cache = [];
        catalog_generation =
            if changes_catalog s then w.catalog_generation + 1 else w.catalog_generation;
      } in
      let last = poison n me ((clear_prepared_cache n >> run n s) w') in
      let refused : Result (Unit {0}) =
        raised (cypher_error "The write transaction has failed; further statements are refused.") in
      if_inv (WroteBy me s w) w.recovery_required (raised transaction_outcome_unknown, w)
        (if w.failed then (refused, w') else last)
        (λ h. record {
          owner = refl;
          quiet = λ _. refl;
          log = inl (refl, refl, refl);
          open_writer = λ t. absurd cc;
          poisoned = λ _ _. ground (arith, h);
          unowned = λ _. refl;
          blocked = λ t. (refl, refl, t, refl);
        })
        (λ h.
          if_inv (WroteBy me s w) w.failed (refused, w') last
            (λ f. record {
              owner = refl;
              quiet = λ _. refl;
              log = inl (refl, refl, refl);
              open_writer = λ t. absurd cc;
              poisoned = λ _ _. ground (arith, f);
              unowned = λ _. refl;
              blocked = λ t. (refl, refl, t, refl);
            })
            (λ f.
              let q =
                poison-WroteBy me s w' ((clear_prepared_cache n >> run n s) w') h f
                  (run_clear-RanBy s w') in
              record {
                owner = q.owner;
                quiet = q.quiet;
                log = q.log;
                open_writer = q.open_writer;
                poisoned = q.poisoned;
                unowned = q.unowned;
                blocked = q.blocked;
              }))
