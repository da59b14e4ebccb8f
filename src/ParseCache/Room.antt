-- ===== src/ParseCache/Room.antt =====
-- What a valid cache is, and that `put`, `get` and `retain_selected` keep it valid.
use grag.Base.{
  ℕ, ◌+◌, ◌-◌, ◌≤◌, ltb, leb, String, List, [], ◌∷◌, length, length-append, none, some, Bool, true,
  ◌&&◌, ◌||◌, not, if◌then◌else◌, if_inv, ◌≡◌, refl, ◌∙◌, inl, inr, Option-cases, arith, eq_iff,
}
use grag.Base.Dict.{contains}
use grag.ParseCache.{
  Key, key_eq, Entry, Items, ParseCache, find, pop, discard, retain_keys, move_to_end, get, evict,
  admit, put,
}
use grag.ParseCache.Entries.{
  total, Distinct, total-append, total-pop, length-pop, find-pop, pop-Distinct, append-Distinct,
}

pub key_eq_refl : (k : Key) → key_eq k k ≡ true
key_eq_refl k = ground (arith, eq_iff k.0 k.0, eq_iff k.1 k.1)

module _ {M : Type 0} where
  pub record IsValid (c : ParseCache M) : Type 0 where
    pub counted : c.size_bytes ≡ total c.entries
    pub within_bytes : c.size_bytes ≤ c.max_bytes
    pub within_entries : length c.entries ≤ c.max_entries
    pub distinct : Distinct c.entries

  -- The limits never change, and a key that is taken away is gone.
  pub record Shrinks (c after : ParseCache M) : Type 0 where
    pub valid : IsValid after
    pub same_bytes : after.max_bytes ≡ c.max_bytes
    pub same_entries : after.max_entries ≡ c.max_entries
    pub missing : (j : Key) → find j c.entries ≡ none → find j after.entries ≡ none

  Shrinks-self : (c : ParseCache M) → IsValid c → Shrinks c c
  Shrinks-self c v = record {
    valid = v;
    same_bytes = refl;
    same_entries = refl;
    missing = λ j h. h;
  }

  Shrinks-trans : (a b c : ParseCache M) → Shrinks a b → Shrinks b c → Shrinks a c
  Shrinks-trans a b c s t = record {
    valid = t.valid;
    same_bytes = t.same_bytes ∙ s.same_bytes;
    same_entries = t.same_entries ∙ s.same_entries;
    missing = λ j h. t.missing j (s.missing j h);
  }

  pop-Shrinks :
      (key : Key) (e : Entry M) (c : ParseCache M)
      → IsValid c
      → find key c.entries ≡ some e
      → Shrinks c (record c { size_bytes = c.size_bytes - e.size; entries = pop key c.entries })
  pop-Shrinks key e c v h = record {
    valid = record {
      counted = omega (arith, total-pop key e c.entries h, v.counted);
      within_bytes = omega (arith, v.within_bytes);
      within_entries = omega (arith, length-pop key e c.entries h, v.within_entries);
      distinct = pop-Distinct key c.entries v.distinct;
    };
    same_bytes = refl;
    same_entries = refl;
    missing = λ j t. ground (arith, find-pop key j c.entries v.distinct, t);
  }

  pub discard-Shrinks : (key : Key) (c : ParseCache M) → IsValid c → Shrinks c (discard key c)
  unfolding discard
  discard-Shrinks key c v = elim (Option-cases (find key c.entries)) [
    | inl e ↦ rw (discard, e) (Shrinks-self c v)
    | inr (entry, e) ↦ rw (discard, e) (pop-Shrinks key entry c v e)
  ]

  pub find-discard :
      (key : Key) (c : ParseCache M) → IsValid c → find key (discard key c).entries ≡ none
  unfolding discard
  find-discard key c v = elim (Option-cases (find key c.entries)) [
    | inl e ↦ rw (discard, e) e
    | inr (entry, e) ↦
        rw (discard, e) (ground (arith, find-pop key key c.entries v.distinct, key_eq_refl key))
  ]

  pub retain_keys-Shrinks :
      (repos sources : List String) (items : Items M) (c : ParseCache M)
      → IsValid c
      → Shrinks c (retain_keys repos sources items c)
  unfolding retain_keys
  retain_keys-Shrinks repos sources [] c v = Shrinks-self c v
  retain_keys-Shrinks repos sources ((k, e) ∷ items) c v =
      let next = if contains repos k.0 && not (contains sources k.1) then discard k c else c in
      let s : Shrinks c next =
        if_inv (Shrinks c) (contains repos k.0 && not (contains sources k.1)) (discard k c) c
          (λ _. discard-Shrinks k c v) (λ _. Shrinks-self c v) in
      Shrinks-trans c next (retain_keys repos sources items next) s
        (retain_keys-Shrinks repos sources items next s.valid)

  move_to_end-IsValid :
      (key : Key) (e : Entry M) (c : ParseCache M)
      → IsValid c
      → find key c.entries ≡ some e
      → IsValid (move_to_end key e c)
  unfolding move_to_end
  move_to_end-IsValid key e c v h = record {
    counted = omega (
      arith,
      total-append (pop key c.entries) ((key, e) ∷ []),
      total-pop key e c.entries h,
      v.counted,
    );
    within_bytes = v.within_bytes;
    within_entries = omega (
      arith,
      length-append (pop key c.entries) ((key, e) ∷ []),
      length-pop key e c.entries h,
      v.within_entries,
    );
    distinct =
        append-Distinct (pop key c.entries) key e (pop-Distinct key c.entries v.distinct)
          (ground (arith, find-pop key key c.entries v.distinct, key_eq_refl key));
  }

  pub get-IsValid :
      (copyable : M → Bool) (key : Key) (fingerprint parser : String) (c : ParseCache M)
      → IsValid c
      → IsValid (get copyable key fingerprint parser c).1
  unfolding get
  get-IsValid copyable key fingerprint parser c v = elim (Option-cases (find key c.entries)) [
    | inl h ↦ rw (get, h) v
    | inr (e, h) ↦
        let moved = move_to_end-IsValid key e c v h in
        let gone = (discard-Shrinks key c v).valid in
        let dropped = (discard-Shrinks key (move_to_end key e c) moved).valid in
        rw (get, h) (ground (arith, moved, gone, dropped))
  ]

  -- There is room for one more entry of a size.
  abbrev HasRoom : ℕ → ParseCache M → Type 0
  HasRoom size c = (c.size_bytes + size ≤ c.max_bytes) × (length c.entries + 1 ≤ c.max_entries)

  entries-discard_first :
      (k : Key) (e : Entry M) (items : Items M) (c : ParseCache M)
      → c.entries ≡ (k, e) ∷ items
      → (discard k c).entries ≡ items
  unfolding discard find pop
  entries-discard_first k e items c h = ground (arith, h, key_eq_refl k)

  evict-Shrinks :
      (size : ℕ) (items : Items M) (c : ParseCache M)
      → IsValid c
      → c.entries ≡ items
      → Shrinks c (evict size items c)
  unfolding evict
  evict-Shrinks size [] c v h = Shrinks-self c v
  evict-Shrinks size ((k, e) ∷ items) c v h =
      let s = discard-Shrinks k c v in
      if_inv (Shrinks c)
        (ltb c.max_bytes (c.size_bytes + size) || leb c.max_entries (length c.entries))
        (evict size items (discard k c)) c
        (λ _.
          Shrinks-trans c (discard k c) (evict size items (discard k c)) s
            (evict-Shrinks size items (discard k c) s.valid (entries-discard_first k e items c h)))
        (λ _. Shrinks-self c v)

  -- Once the loop of `put` has ended there is room, where the entry can fit at all.
  evict-HasRoom :
      (size : ℕ) (items : Items M) (c : ParseCache M)
      → IsValid c
      → c.entries ≡ items
      → size ≤ c.max_bytes
      → 1 ≤ c.max_entries
      → HasRoom size (evict size items c)
  unfolding evict
  evict-HasRoom size [] c v h fits some_room = (ground (arith, v.counted, h), ground (arith, h))
  evict-HasRoom size ((k, e) ∷ items) c v h fits some_room =
      let s = discard-Shrinks k c v in
      if_inv (HasRoom size)
        (ltb c.max_bytes (c.size_bytes + size) || leb c.max_entries (length c.entries))
        (evict size items (discard k c)) c
        (λ _.
          evict-HasRoom size items (discard k c) s.valid (entries-discard_first k e items c h)
            (omega (arith, s.same_bytes)) (omega (arith, s.same_entries)))
        (λ t. ground (arith, t))

  admit-IsValid :
      (key : Key) (e : Entry M) (c : ParseCache M)
      → IsValid c
      → HasRoom e.size c
      → find key c.entries ≡ none
      → IsValid (admit key e c)
  admit-IsValid key e c v (bytes, count) new = record {
    counted = omega (arith, total-append c.entries ((key, e) ∷ []), v.counted);
    within_bytes = omega arith;
    within_entries = omega (arith, length-append c.entries ((key, e) ∷ []));
    distinct = append-Distinct c.entries key e v.distinct new;
  }

  -- What is known when `put` has made room.
  pub record Ready (key : Key) (e : Entry M) (c : ParseCache M) : Type 0 where
    pub valid : IsValid c
    pub room : HasRoom e.size c
    pub new : find key c.entries ≡ none

  pub put-Ready :
      (key : Key) (e : Entry M) (c : ParseCache M)
      → IsValid c
      → e.size ≤ c.max_bytes
      → 1 ≤ c.max_entries
      → Ready key e (evict e.size (discard key c).entries (discard key c))
  put-Ready key e c v fits some_room =
      let c' = discard key c in
      let s = discard-Shrinks key c v in
      let t = evict-Shrinks e.size c'.entries c' s.valid refl in
      record {
        valid = t.valid;
        room =
            evict-HasRoom e.size c'.entries c' s.valid refl (omega (arith, s.same_bytes))
              (omega (arith, s.same_entries));
        new = t.missing key (find-discard key c v);
      }

  pub put-IsValid :
      (copyable : M → Bool) (key : Key) (e : Entry M) (c : ParseCache M)
      → IsValid c
      → IsValid (put copyable key e c)
  unfolding put
  put-IsValid copyable key e c v =
      let c' = discard key c in
      let room = evict e.size c'.entries c' in
      if_inv IsValid (ltb c.max_bytes e.size || leb c.max_entries 0) c'
        (if copyable e.parsed then admit key e room else room)
        (λ _. (discard-Shrinks key c v).valid)
        (λ t.
          let r = put-Ready key e c v (ground (arith, t)) (ground (arith, t)) in
          if_inv IsValid (copyable e.parsed) (admit key e room) room
            (λ _. admit-IsValid key e room r.valid r.room r.new) (λ _. r.valid))
