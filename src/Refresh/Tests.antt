-- ===== src/Refresh/Tests.antt =====
-- One root that is verified, one whose scan fails, and the readers that wait for them.
use grag.Base.{String, List, [], ◌∷◌, none, some, true, false, foldl, ◌≡◌, refl, arith, All}
use grag.Base.Dict.{lookup, insert}
use grag.Refresh.{
  Refresher, new_refresher, message, value, throws, asks, invalidates, fresh, stale, FreshnessState,
  state_of, schedule, any_root,
}
use grag.Refresh.Cycle.{
  IndexRecord, Call, Visit, Round, Event, acts, runs, happen, register, observe, refreshed,
  finish_root, ingest_root, refresh_locked, refresh_root, scan_root, catch_failure, check_root,
  roots_of, check_roots, conclude, verify_records, verify, end_cycle, run_cycle,
}
use grag.Refresh.Verified.{IsHonestEvent, new-IsValid}
use grag.Refresh.Fresh.{AllVerified, fresh-verified}
use grag.Refresh.Read.{require, wait, Wake, answers, read, read_loop}
use grag.Refresh.Waiting.{Shown, has_ended, read-Shown, read-ends}

abbrev call : {A : Type 0} → A → Call A
call x = record { others = []; outcome = value x }

abbrev known : IndexRecord
known = record { options = some "{}"; generation = some "g1"; error = none }

abbrev scanning : Call String → Visit
scanning scan = record {
  begun_at = 10;
  scanned_at = 20;
  refreshed_at = 30;
  failed_at = 40;
  scan_stamp = "12:00";
  refresh_stamp = "12:01";
  scan = scan;
  latest = call (some known);
  ingest = call tt;
  after = call known;
  rescan = call "g1";
}

abbrev round : Call String → Round
round scan = record {
  listing = call (("/code", known) ∷ []);
  visits = λ path. scanning scan;
  last = [];
  stamp = "12:02";
  ended_at = 50;
}

abbrev asked : Event
asked = acts (asks true 0 (value "job"))

abbrev verified : List Event
verified = asked ∷ runs (round (call "g1")) ∷ []

abbrev start : Refresher
start = new_refresher 30000 1000 300000

after_verified : state_of (foldl happen start verified) ≡ fresh
unfolding state_of schedule run_cycle end_cycle verify verify_records check_roots check_root lookup
    roots_of register catch_failure scan_root conclude any_root insert observe finish_root
    ingest_root refresh_locked refresh_root refreshed
after_verified = refl

after_refresh : state_of (foldl happen start (asked ∷ runs (round (call "g2")) ∷ [])) ≡ fresh
unfolding state_of schedule run_cycle end_cycle verify verify_records check_roots check_root lookup
    roots_of register catch_failure scan_root conclude any_root insert observe finish_root
    ingest_root refresh_locked refresh_root refreshed
after_refresh = refl

after_invalidate :
    state_of (foldl happen start (asked ∷ runs (round (call "g1")) ∷ acts invalidates ∷ [])) ≡ stale
unfolding state_of schedule run_cycle end_cycle verify verify_records check_roots check_root lookup
    roots_of register catch_failure scan_root conclude any_root insert observe finish_root
    ingest_root refresh_locked refresh_root refreshed
after_invalidate = refl

after_failure :
    state_of (
      foldl happen start (
        asked
        ∷ runs (round (record { others = []; outcome = throws (message "no such directory") }))
        ∷ []))
    ≡ FreshnessState.error
unfolding state_of schedule run_cycle end_cycle verify verify_records check_roots check_root lookup
    roots_of register catch_failure scan_root conclude any_root insert observe finish_root
    ingest_root refresh_locked refresh_root refreshed
after_failure = refl

-- An exception without a text leaves no error, and the root, never scanned, does not show.
after_unnamed_failure :
    state_of (
      foldl happen start
        (asked ∷ runs (round (record { others = []; outcome = throws (message "") })) ∷ []))
    ≡ fresh
unfolding state_of schedule run_cycle end_cycle verify verify_records check_roots check_root lookup
    roots_of register catch_failure scan_root conclude any_root insert observe finish_root
    ingest_root refresh_locked refresh_root refreshed
after_unnamed_failure = refl

verified-honest : All IsHonestEvent verified
verified-honest = (
  refl,
  (
    record {
      listing = refl;
      visits = λ path. record {
        scan = refl;
        latest = refl;
        ingest = refl;
        after = refl;
        rescan = refl;
        generation = refl;
        current = refl;
      };
    },
    tt,
  ),
)

fresh-verified_example : AllVerified (foldl happen start verified).roots
fresh-verified_example = fresh-verified 30000 1000 300000 verified verified-honest after_verified

abbrev wakes : List Wake
wakes = record { events = runs (round (call "g1")) ∷ []; now = 60; submitted = value "next" } ∷ []

read-Shown_example :
    Shown (schedule true 0 (value "job") start).0 (read require 100 0 (value "job") wakes start)
read-Shown_example =
    read-Shown 100 0 (value "job") wakes start refl ((verified-honest.1, refl), tt)
      (new-IsValid 30000 1000 300000)

is_answered :
    (read require 100 0 (value "job") wakes start).0
    ≡ answers (record { status = fresh; checked_at = some "12:02"; timed_out = false })
unfolding read read_loop state_of schedule run_cycle end_cycle verify verify_records check_roots
    check_root lookup roots_of register catch_failure scan_root conclude any_root insert observe
    finish_root ingest_root refresh_locked refresh_root refreshed
is_answered = refl

read-ends_example : has_ended wait (read wait 60 0 (value "job") wakes start).0 ≡ true
read-ends_example = read-ends wait 60 0 (value "job") wakes start (omega arith)
