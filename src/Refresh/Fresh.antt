-- ===== src/Refresh/Fresh.antt =====
-- What `fresh` says of the roots, and that the readers share one job.
use grag.Base.{
  ℕ, String, eq_iff, List, [], ◌∷◌, Option, none, some, Bool, true, false, ◌&&◌, ◌||◌, All, foldl,
  ◌≡◌, refl, inl, inr, arith,
}
use grag.Base.Dict.{Dict, lookup}
use grag.Refresh.{
  is_set, same, RootState, Refresher, new_refresher, any_root, has_failed, fresh, state_of,
}
use grag.Refresh.Cycle.{Event, happen}
use grag.Refresh.Roots.{is_settled}
use grag.Refresh.Job.{AllSettled}
use grag.Refresh.Verified.{IsValid, IsHonestEvent, events-IsValid, new-IsValid}

any_root-lookup :
    (p : RootState → Bool) (roots : Dict RootState) (path : String) (s : RootState)
    → any_root p roots ≡ false
    → lookup path roots ≡ some s
    → p s ≡ false
unfolding any_root lookup
any_root-lookup p [] path s h l = absurd cc
any_root-lookup p ((j, t) ∷ roots) path s h l = ground (arith, any_root-lookup p roots path s, h, l)

-- The last scan of each root is of the generation that its index was made from.
abbrev pub AllVerified : Dict RootState → Type 0
AllVerified roots =
    (path : String) (s : RootState)
    → lookup path roots ≡ some s
    → (generation : String) × (s.observed ≡ some generation) × (s.successful ≡ some generation)

settled-verified :
    (s : RootState)
    → is_settled s ≡ true
    → has_failed s ≡ false
    → s.unknown ≡ false
    → is_set s.pending ≡ false
    → (generation : String) × (s.observed ≡ some generation) × (s.successful ≡ some generation)
settled-verified s h a b c = generation s.observed s.successful (ground (arith, h, a, b, c))
  where
    generation :
        (a b : Option String)
        → (is_set a && same a b) ≡ true
        → (g : String) × (a ≡ some g) × (b ≡ some g)
    generation none b h = absurd cc
    generation (some a) none h = absurd (ground (arith, h))
    generation (some a) (some b) h = (a, refl, ground (arith, h, eq_iff a b))

fresh_fields :
    (r : Refresher)
    → state_of r ≡ fresh
    → ((r.closed || is_set r.scan_error || r.checking) ≡ false)
      × (any_root has_failed r.roots ≡ false)
      × (any_root (λ s. s.unknown) r.roots ≡ false)
      × (any_root (λ s. is_set s.pending) r.roots ≡ false)
unfolding state_of
fresh_fields r h = ground (arith, h)

pub fresh-AllVerified : (r : Refresher) → IsValid r → state_of r ≡ fresh → AllVerified r.roots
fresh-AllVerified r i f path s l =
    let (quiet, failed, unknown, pending) = fresh_fields r f in
    let settled : AllSettled r.roots = elim i.verified [
      | inl t ↦ absurd (ground (arith, t, quiet))
      | inr a ↦ a
    ] in
    settled-verified s (settled path s l) (any_root-lookup has_failed r.roots path s failed l)
      (any_root-lookup (λ t. t.unknown) r.roots path s unknown l)
      (any_root-lookup (λ t. is_set t.pending) r.roots path s pending l)

-- After any sequence of events, in which exceptions have a text, generations are not empty and
-- shutdown is raised after `close` only: where the report is `fresh`, the last scan of each root is
-- of the generation that its index was made from.
pub fresh-verified :
    (interval retry_base retry_max : ℕ) (events : List Event)
    → All IsHonestEvent events
    → let r = foldl happen (new_refresher interval retry_base retry_max) events in
      state_of r ≡ fresh → AllVerified r.roots
fresh-verified interval retry_base retry_max events h f =
    fresh-AllVerified (foldl happen (new_refresher interval retry_base retry_max) events)
      (events-IsValid (new_refresher interval retry_base retry_max) events h
        (new-IsValid interval retry_base retry_max))
      f
