-- ===== src/ParseCache/Reuse.antt =====
-- What `get` gives after `put`.
use text.Mathlib.Text.{◌==◌}
use grag.Base.{◌≤◌, String, [], ◌∷◌, none, some, Bool, true, ◌&&◌, if◌then◌else◌, ◌≡◌, arith}
use grag.ParseCache.{Key, Entry, ParseCache, find, get, discard, evict, move_to_end, put}
use grag.ParseCache.Entries.{find-append}
use grag.ParseCache.Room.{IsValid, put-Ready, put-IsValid, key_eq_refl, find-discard}

module _ {M : Type 0} (copyable : M → Bool) (key : Key) (e : Entry M) (c : ParseCache M) where
  find-put :
      IsValid c
      → e.size ≤ c.max_bytes
      → 1 ≤ c.max_entries
      → copyable e.parsed ≡ true
      → find key (put copyable key e c).entries ≡ some e
  unfolding put find
  find-put v fits room copies =
      let c' = discard key c in
      let kept = evict e.size c'.entries c' in
      let r = put-Ready key e c v fits room in
      ground (
        arith,
        fits,
        room,
        copies,
        r.new,
        key_eq_refl key,
        find-append key kept.entries ((key, e) ∷ []),
      )

  get_found :
      (fingerprint parser : String) (d : ParseCache M)
      → find key d.entries ≡ some e
      → copyable e.parsed ≡ true
      → get copyable key fingerprint parser d ≡ (
          if e.fingerprint == fingerprint && e.parser == parser
          then (some e.parsed, move_to_end key e d)
          else (none, discard key d))
  unfolding get
  get_found fingerprint parser d h copies = rw (get, h) (ground (arith, copies))

  -- A module that fits the cache and can be copied is given back for the same fingerprint and
  -- parser, and for no other; a request with another fingerprint or parser removes it.
  pub get-put :
      IsValid c
      → e.size ≤ c.max_bytes
      → 1 ≤ c.max_entries
      → copyable e.parsed ≡ true
      → (fingerprint parser : String)
      → let (answer, after) = get copyable key fingerprint parser (put copyable key e c) in
        (answer
          ≡ (if e.fingerprint == fingerprint && e.parser == parser then some e.parsed else none))
        × (answer ≡ none → find key after.entries ≡ none)
  get-put v fits room copies fingerprint parser =
      let d = put copyable key e c in
      let gone = find-discard key d (put-IsValid copyable key e c v) in
      rw (get_found fingerprint parser d (find-put v fits room copies) copies)
        (ground (arith, gone))
