-- ===== src/ParseCache/Tests.antt =====
-- A cache of 100 bytes and two entries.
use grag.Base.{ℕ, List, [], ◌∷◌, foldl, none, some, Bool, true, ◌≡◌, refl, arith}
use grag.ParseCache.{Entry, ParseCache, find, pop, discard, get, move_to_end, evict, put, new_cache}
use grag.ParseCache.Room.{IsValid}
use grag.ParseCache.Bounds.{Call, puts, gets, call, calls-IsValid}
use grag.ParseCache.Reuse.{get-put}

abbrev copyable : ℕ → Bool
copyable n = true

abbrev entry : ℕ → Entry ℕ
entry n = record { fingerprint = "f1"; parser = "python"; parsed = n; size = 40 }

abbrev calls : List (Call ℕ)
calls =
    puts copyable ("r", "a.py") (entry 1)
    ∷ puts copyable ("r", "b.py") (entry 2)
    ∷ gets copyable ("r", "a.py") "f1" "python"
    ∷ puts copyable ("r", "c.py") (entry 3)
    ∷ []

abbrev after_calls : ParseCache ℕ
after_calls = foldl call (new_cache ℕ 100 2) calls

-- The entry that was used last stays.
least_used_leaves : after_calls.entries ≡ (("r", "a.py"), entry 1) ∷ (("r", "c.py"), entry 3) ∷ []
unfolding call put discard evict get move_to_end find pop
least_used_leaves = refl

calls-IsValid_example : IsValid after_calls
calls-IsValid_example = calls-IsValid 100 2 calls

after_calls-IsValid : IsValid after_calls
after_calls-IsValid = calls-IsValid 100 2 calls

get-put_example :
    let (answer, after) =
      get copyable ("r", "d.py") "f1" "python" (put copyable ("r", "d.py") (entry 4) after_calls) in
    (answer ≡ some 4) × (answer ≡ none → find ("r", "d.py") after.entries ≡ none)
unfolding call put discard evict get move_to_end find pop
get-put_example =
    get-put copyable ("r", "d.py") (entry 4) after_calls after_calls-IsValid (omega arith)
      (omega arith) refl "f1" "python"
