-- ===== src/Refresh/Parts.antt =====
-- What the parts of `_check_root` leave of its root, up to `ingest_code`.
use grag.Base.{
  ◌+◌, String, str_eq, Option, none, some, true, not, if_inv, ◌≡◌, refl, ◌∙◌, ◌⊎◌, inl, inr, arith,
}
use grag.Base.Dict.{lookup}
use mathlib.Core.Path.{subst}
use grag.Refresh.{
  is_set, RootState, Refresher, Problem, shut_down, message, Try, value, throws, invalidate,
}
use grag.Refresh.Cycle.{
  IndexRecord, Call, calling, Visit, refreshed, succeeded, store, Part, error_text, finish_root,
  ingest_root,
}
use grag.Refresh.Roots.{
  is_settled, is_honest, has_value, IsHonest, Quiet-self, is_excused, excuse, Kept, Kept-trans,
  calling-Kept, store-Kept,
}

pub Try-cases {ℓ} :
    {A : Type ℓ} (t : Try A) → ((x : A) × (t ≡ value x)) ⊎ ((p : Problem) × (t ≡ throws p))
Try-cases (value x) = inl (x, refl)
Try-cases (throws p) = inr (p, refl)

pub record Good (path : String) (r : Refresher) (p : Option Problem) (s : RootState)
    (r' : Refresher) : Type 0 where
  pub kept : Kept path r r'
  pub stored : lookup path r'.roots ≡ some s
  pub excused : is_excused p r' ≡ true
  pub settled : p ≡ none → is_settled s ≡ true

abbrev pub GoodBy : String → Refresher → Part → Type 0
GoodBy path r part = Good path r part.0 part.1 part.2

-- From a state that was reached before.
pub Good-after :
    (path : String) (a b : Refresher) (part : Part)
    → Kept path a b
    → GoodBy path b part
    → GoodBy path a part
Good-after path a b part k g = record {
  kept = Kept-trans path a b part.2 k g.kept;
  stored = g.stored;
  excused = g.excused;
  settled = g.settled;
}

pub Good-self :
    (path : String) (s : RootState) (r : Refresher)
    → r.checking ≡ true
    → lookup path r.roots ≡ some s
    → is_settled s ≡ true
    → Good path r none s r
Good-self path s r c l g = record {
  kept = record { quiet = Quiet-self r c; others = λ j h. refl };
  stored = l;
  excused = refl;
  settled = λ _. g;
}

-- A call that raises.
pub throws-Good :
    {A : Type 0} (path : String) (c : Call A) (s : RootState) (r : Refresher) (p : Problem)
    → r.checking ≡ true
    → lookup path r.roots ≡ some s
    → is_honest c.others c.outcome ≡ true
    → c.outcome ≡ throws p
    → Good path r (some p) s (calling c r)
throws-Good {A} path c s r p k l h e =
    let (kept, same_root) = calling-Kept path c r k in
    record {
      kept = kept;
      stored = same_root ∙ l;
      excused = excuse A r c.others p k (subst (λ t. is_honest c.others t ≡ true) e h);
      settled = λ t. absurd cc;
    }

pub invalidate-Kept :
    (path : String) (r : Refresher) → r.checking ≡ true → Kept path r (invalidate r)
invalidate-Kept path r c = record {
  quiet = record { closed = λ t. t; checking = c; cycle = refl; serial = refl; completed = refl };
  others = λ j t. refl;
}

pub running-Kept :
    (path : String) (root : Option String) (r : Refresher)
    → r.checking ≡ true
    → Kept path r (record r { running_root = root })
running-Kept path root r c = record {
  quiet = record { closed = λ t. t; checking = c; cycle = refl; serial = refl; completed = refl };
  others = λ j t. refl;
}

pub excused-running :
    (p : Option Problem) (root : Option String) (r : Refresher)
    → is_excused p r ≡ true
    → is_excused p (record r { running_root = root }) ≡ true
excused-running none root r h = refl
excused-running (some shut_down) root r h = h
excused-running (some (message text)) root r h = h

error_text-set : (e : Option String) → is_set e ≡ true → not (str_eq (error_text e) "") ≡ true
error_text-set none h = absurd cc
error_text-set (some text) h = h

module _ (v : Visit) (path : String) (h : IsHonest v) where
  finish_root-Good :
      (after : IndexRecord) (current : String) (s : RootState) (r : Refresher)
      → r.checking ≡ true
      → not (str_eq current "") ≡ true
      → let s1 = refreshed v.refresh_stamp after current s in
        GoodBy path r (finish_root v path after s1 (store path s1 r))
  unfolding finish_root refreshed
  finish_root-Good after current s r c g =
      let s1 = refreshed v.refresh_stamp after current s in
      let s2 = succeeded v.refreshed_at s1 in
      let (k, l) = store-Kept path s1 r c in
      let (k2, l2) = store-Kept path s2 (store path s1 r) c in
      if_inv (GoodBy path r) (is_set after.error)
        (some (message (error_text after.error)), s1, store path s1 r)
        (none, s2, store path s2 (store path s1 r))
        (λ t. record {
          kept = k;
          stored = l;
          excused = error_text-set after.error t;
          settled = λ q. absurd cc;
        })
        (λ _. record {
          kept = Kept-trans path r (store path s1 r) (store path s2 (store path s1 r)) k k2;
          stored = l2;
          excused = refl;
          settled = λ _. ground (arith, g);
        })

  pub ingest_root-Good :
      (s : RootState) (r : Refresher)
      → r.checking ≡ true
      → lookup path r.roots ≡ some s
      → GoodBy path r (ingest_root v path s r)
  unfolding ingest_root
  ingest_root-Good s r0 c l =
      let r1 : Refresher = record r0 { refreshes = r0.refreshes + 1 } in
      let r2 = calling v.ingest r1 in
      let r3 = calling v.after r2 in
      let r4 = calling v.rescan r3 in
      let (k1, l1) = calling-Kept path v.ingest r1 c in
      let (k2, l2) = calling-Kept path v.after r2 k1.quiet.checking in
      let (k3, l3) = calling-Kept path v.rescan r3 k2.quiet.checking in
      let k0 : Kept path r0 r1 = record {
        quiet = record {
          closed = λ t. t;
          checking = c;
          cycle = refl;
          serial = refl;
          completed = refl;
        };
        others = λ j t. refl;
      } in
      let to2 = Kept-trans path r0 r1 r2 k0 k1 in
      let to3 = Kept-trans path r0 r2 r3 to2 k2 in
      let to4 = Kept-trans path r0 r3 r4 to3 k3 in
      elim (Try-cases v.ingest.outcome) [
        | inr (p, e) ↦
            rw (ingest_root, e)
              (Good-after path r0 r1 (some p, s, r2) k0
                (throws-Good path v.ingest s r1 p c l h.ingest e))
        | inl (x, e) ↦ elim (Try-cases v.after.outcome) [
          | inr (p, f) ↦
              rw (ingest_root, e, f)
                (Good-after path r0 r2 (some p, s, r3) to2
                  (throws-Good path v.after s r2 p k1.quiet.checking (l1 ∙ l) h.after f))
          | inl (after, f) ↦ elim (Try-cases v.rescan.outcome) [
            | inr (p, g) ↦
                rw (ingest_root, e, f, g)
                  (Good-after path r0 r3 (some p, s, r4) to3
                    (throws-Good path v.rescan s r3 p k2.quiet.checking (l2 ∙ l1 ∙ l) h.rescan g))
            | inl (current, g) ↦
                let good =
                  finish_root-Good after current s r4 k3.quiet.checking
                    (subst (λ t. has_value t ≡ true) g h.current) in
                rw (ingest_root, e, f, g)
                  (Good-after path r0 r4
                    (finish_root v path after (refreshed v.refresh_stamp after current s)
                      (store path (refreshed v.refresh_stamp after current s) r4))
                    to4 good)
          ]
        ]
      ]
