-- ===== src/Refresh/Check.antt =====
-- After `_check_root` the root is settled, or the job ends with an exception.
use grag.Base.{
  ℕ, ltb, String, str_eq, Option, none, some, true, ◌&&◌, ◌||◌, not, if◌then◌else◌, if_inv, ◌≡◌,
  refl, ◌∙◌, inl, inr, Option-cases, arith,
}
use grag.Base.Dict.{lookup}
use mathlib.Core.Path.{subst}
use grag.Refresh.{is_set, same, RootState, Refresher, Problem, shut_down, message, invalidate}
use grag.Refresh.Cycle.{
  IndexRecord, calling, Visit, register, is_current, observe, failed, store, Part, ingest_root,
  refresh_locked, refresh_root, scan_root, catch_failure, check_root,
}
use grag.Refresh.Roots.{
  is_settled, has_value, IsHonest, Quiet-self, is_excused, Kept, Kept-trans, calling-Kept,
  store-Kept,
}
use grag.Refresh.Parts.{
  Try-cases, GoodBy, Good-after, Good-self, throws-Good, invalidate-Kept, running-Kept,
  excused-running, ingest_root-Good,
}

module _ (v : Visit) (path : String) (h : IsHonest v) where
  refresh_locked-Good :
      (record_ : IndexRecord) (s : RootState) (r : Refresher)
      → r.checking ≡ true
      → lookup path r.roots ≡ some s
      → is_settled s ≡ true
      → GoodBy path r (refresh_locked v path record_ s r)
  unfolding refresh_locked
  refresh_locked-Good record_ s r0 c l g =
      let r = calling v.latest r0 in
      let (k, e0) = calling-Kept path v.latest r0 c in
      let here = Good-self path s r k.quiet.checking (e0 ∙ l) g in
      elim (Try-cases v.latest.outcome) [
        | inr (p, e) ↦ rw (refresh_locked, e) (throws-Good path v.latest s r0 p c l h.latest e)
        | inl (o, e) ↦ elim (Option-cases o) [
          | inl f ↦ rw (refresh_locked, e, f) (Good-after path r0 r (none, s, r) k here)
          | inr (latest, f) ↦
              rw (refresh_locked, e, f)
                (if_inv (GoodBy path r0) r.closed (none, s, r)
                  (if not (same latest.options record_.options)
                    then (none, s, invalidate r)
                    else ingest_root v path s r)
                  (λ _. Good-after path r0 r (none, s, r) k here)
                  (λ _.
                    if_inv (GoodBy path r0) (not (same latest.options record_.options))
                      (none, s, invalidate r) (ingest_root v path s r)
                      (λ _.
                        Good-after path r0 (invalidate r) (none, s, invalidate r)
                          (Kept-trans path r0 r (invalidate r) k
                            (invalidate-Kept path r k.quiet.checking))
                          (Good-self path s (invalidate r) k.quiet.checking (e0 ∙ l) g))
                      (λ _.
                        Good-after path r0 r (ingest_root v path s r) k
                          (ingest_root-Good v path h s r k.quiet.checking (e0 ∙ l)))))
        ]
      ]

  refresh_root-Good :
      (record_ : IndexRecord) (s : RootState) (r : Refresher)
      → r.checking ≡ true
      → lookup path r.roots ≡ some s
      → is_settled s ≡ true
      → GoodBy path r (refresh_root v path record_ s r)
  unfolding refresh_root
  refresh_root-Good record_ s r c l g =
      let r1 : Refresher = record r { running_root = some path } in
      let part = refresh_locked v path record_ s r1 in
      let good = refresh_locked-Good record_ s r1 c l g in
      let k = Kept-trans path r r1 part.2 (running-Kept path (some path) r c) good.kept in
      record {
        kept =
            Kept-trans path r part.2 (record part.2 { running_root = none }) k
              (running-Kept path none part.2 k.quiet.checking);
        stored = good.stored;
        excused = excused-running part.0 none part.2 good.excused;
        settled = good.settled;
      }

  observe-settled :
      (stamp : String) (record_ : IndexRecord) (generation : String) (s : RootState)
      → not (str_eq generation "") ≡ true
      → is_settled (observe stamp record_ generation s) ≡ true
  unfolding observe
  observe-settled stamp record_ generation s g = ground (arith, g)

  scan_root-Good :
      (record_ : IndexRecord) (s : RootState) (r : Refresher)
      → r.checking ≡ true
      → lookup path r.roots ≡ some s
      → GoodBy path r (scan_root v path record_ s r)
  unfolding scan_root
  scan_root-Good record_ s r0 c l =
      let r = calling v.scan r0 in
      let (k, e0) = calling-Kept path v.scan r0 c in
      elim (Try-cases v.scan.outcome) [
        | inr (p, e) ↦ rw (scan_root, e) (throws-Good path v.scan s r0 p c l h.scan e)
        | inl (generation, e) ↦
            let s1 = observe v.scan_stamp record_ generation s in
            let r1 = store path s1 r in
            let g =
              observe-settled v.scan_stamp record_ generation s
                (subst (λ t. has_value t ≡ true) e h.generation) in
            let (k1, l1) = store-Kept path s1 r k.quiet.checking in
            let to1 = Kept-trans path r0 r r1 k k1 in
            let here =
              Good-after path r0 r1 (none, s1, r1) to1
                (Good-self path s1 r1 k1.quiet.checking l1 g) in
            rw (scan_root, e)
              (if_inv (GoodBy path r0) (is_current record_ generation s) (none, s1, r1)
                (if ltb v.scanned_at s1.retry_at || r1.closed
                  then (none, s1, r1)
                  else refresh_root v path record_ s1 r1)
                (λ _. here)
                (λ _.
                  if_inv (GoodBy path r0) (ltb v.scanned_at s1.retry_at || r1.closed) (none, s1, r1)
                    (refresh_root v path record_ s1 r1) (λ _. here)
                    (λ _.
                      Good-after path r0 r1 (refresh_root v path record_ s1 r1) to1
                        (refresh_root-Good record_ s1 r1 k1.quiet.checking l1 g))))
      ]

-- `_check_root` returned, or raised `p`.
pub record Checked (path : String) (r : Refresher) (p : Option Problem) (r' : Refresher)
    : Type 0 where
  pub kept : Kept path r r'
  pub excused : is_excused p r' ≡ true
  pub settled : p ≡ none → (s : RootState) → lookup path r'.roots ≡ some s → is_settled s ≡ true

abbrev pub CheckedBy : String → Refresher → Option Problem × Refresher → Type 0
CheckedBy path r q = Checked path r q.0 q.1

settled_at :
    (s s' : RootState) (o : Option RootState)
    → is_settled s ≡ true
    → o ≡ some s
    → o ≡ some s'
    → is_settled s' ≡ true
settled_at s s' o g h k = cc

catch_failure-Checked :
    (now : ℕ) (path : String) (r : Refresher) (part : Part)
    → GoodBy path r part
    → CheckedBy path r (catch_failure now path part)
unfolding catch_failure
catch_failure-Checked now path r (none, s, r1) g = record {
  kept = g.kept;
  excused = refl;
  settled = λ e s' l. settled_at s s' (lookup path r1.roots) (g.settled refl) g.stored l;
}
catch_failure-Checked now path r (some shut_down, s, r1) g = record {
  kept = g.kept;
  excused = g.excused;
  settled = λ e. absurd cc;
}
catch_failure-Checked now path r (some (message text), s, r1) g =
    let s1 = failed now text r1 s in
    let (k, l) = store-Kept path s1 r1 g.kept.quiet.checking in
    record {
      kept = Kept-trans path r r1 (store path s1 r1) g.kept k;
      excused = refl;
      settled = λ e s' l'.
          settled_at s1 s' (lookup path (store path s1 r1).roots) (ground (arith, g.excused)) l l';
    }

pub check_root-Checked :
    (v : Visit) (path : String) (record_ : IndexRecord) (r : Refresher)
    → IsHonest v
    → r.checking ≡ true
    → CheckedBy path r (check_root v path record_ r)
unfolding check_root register
check_root-Checked v path record_ r h c = elim (Option-cases (lookup path r.roots)) [
  | inl e ↦
      rw (check_root, e)
        (record {
          kept = record { quiet = Quiet-self r c; others = λ j t. refl };
          excused = refl;
          settled = λ t. absurd cc;
        })
  | inr (s0, e) ↦
      let s = register record_ s0 in
      let r1 = store path s r in
      let (k, l) = store-Kept path s r c in
      let next = catch_failure v.failed_at path (scan_root v path record_ s r1) in
      let here : is_settled s ≡ true → CheckedBy path r (none, r1) = λ g. record {
        kept = k;
        excused = refl;
        settled = λ t s' l'. settled_at s s' (lookup path r1.roots) g l l';
      } in
      let tested = is_set s.error && ltb v.begun_at s.retry_at in
      rw (check_root, e)
        (if_inv (CheckedBy path r) s.unknown (none, r1) (if tested then (none, r1) else next)
          (λ t. here (ground (arith, t)))
          (λ _.
            if_inv (CheckedBy path r) tested (none, r1) next (λ t. here (ground (arith, t)))
              (λ _.
                let q =
                  catch_failure-Checked v.failed_at path r1 (scan_root v path record_ s r1)
                    (scan_root-Good v path h record_ s r1 c l) in
                record {
                  kept = Kept-trans path r r1 next.1 k q.kept;
                  excused = q.excused;
                  settled = q.settled;
                })))
]
