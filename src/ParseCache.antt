-- ===== src/ParseCache.antt =====
-- src/grag/ingest/code_cache.py: `ParseCache`, a bounded cache of parsed modules, the least recently
-- used first. A parsed module is a value of a type that is a parameter. What `put` adds up for it
-- (`_retained_size` of the module and the key, the fingerprint's size and 512) is an argument, and so
-- is whether `deepcopy` takes the module or raises a RecursionError.
pub mod Entries
mod Room
pub mod Bounds
pub mod Reuse
mod Tests
use text.Mathlib.Text.{◌==◌}
use grag.Base.{
  ℕ, ◌+◌, ◌-◌, ◌*◌, ltb, leb, String, List, [], ◌∷◌, ◌++◌, length, Option, none, some, Bool, true,
  false, ◌&&◌, ◌||◌, not, if◌then◌else◌,
}
use grag.Base.Dict.{contains}

-- A repository and a source.
abbrev pub Key : Type 0
Key = String × String

abbrev pub key_eq : Key → Key → Bool
key_eq a b = a.0 == b.0 && a.1 == b.1

-- `_Entry`. A parser is an object, here by its identity.
pub record Entry (M : Type 0) : Type 0 where
  pub fingerprint : String
  pub parser : String
  pub parsed : M
  pub size : ℕ

abbrev pub Items : Type 0 → Type 0
Items M = List (Key × Entry M)

pub record ParseCache (M : Type 0) : Type 0 where
  pub max_bytes : ℕ
  pub max_entries : ℕ
  pub size_bytes : ℕ
  pub entries : Items M

module _ {M : Type 0} where
  unfoldable pub find : Key → Items M → Option (Entry M)
  find key [] = none
  find key ((k, e) ∷ items) = if key_eq k key then some e else find key items

  -- `self._entries.pop(key, None)`
  unfoldable pub pop : Key → Items M → Items M
  pop key [] = []
  pop key ((k, e) ∷ items) = if key_eq k key then items else (k, e) ∷ pop key items

  -- `_discard`
  unfoldable pub discard : Key → ParseCache M → ParseCache M
  discard key c = elim (find key c.entries) [
    | none ↦ c
    | some e ↦ record c { size_bytes = c.size_bytes - e.size; entries = pop key c.entries }
  ]

  -- The loop of `retain_selected` over the copy of the keys.
  unfoldable pub retain_keys : List String → List String → Items M → ParseCache M → ParseCache M
  retain_keys repos sources [] c = c
  retain_keys repos sources ((k, e) ∷ items) c =
      retain_keys repos sources items
        (if contains repos k.0 && not (contains sources k.1) then discard k c else c)

  abbrev pub retain_selected : List String → List String → ParseCache M → ParseCache M
  retain_selected repos sources c = retain_keys repos sources c.entries c

  -- `_entries.move_to_end(key)`
  unfoldable pub move_to_end : Key → Entry M → ParseCache M → ParseCache M
  move_to_end key e c = record c { entries = pop key c.entries ++ (key, e) ∷ [] }

  -- `get`. `copyable` says of a module that `deepcopy` takes it.
  unfoldable pub get : (M → Bool) → Key → String → String → ParseCache M → Option M × ParseCache M
  get copyable key fingerprint parser c = elim (find key c.entries) [
    | none ↦ (none, c)
    | some e ↦
        if not (e.fingerprint == fingerprint) || not (e.parser == parser)
        then (none, discard key c)
        else if copyable e.parsed
        then (some e.parsed, move_to_end key e c)
        else (none, discard key (move_to_end key e c))
  ]

  -- The loop of `put`: the first entries go until a new one of `size` bytes has room.
  unfoldable pub evict : ℕ → Items M → ParseCache M → ParseCache M
  evict size [] c = c
  evict size ((k, e) ∷ items) c =
      let next = evict size items (discard k c) in
      if ltb c.max_bytes (c.size_bytes + size) || leb c.max_entries (length c.entries)
      then next
      else c

  abbrev pub admit : Key → Entry M → ParseCache M → ParseCache M
  admit key e c = record c {
    size_bytes = c.size_bytes + e.size;
    entries = c.entries ++ (key, e) ∷ [];
  }

  unfoldable pub put : (M → Bool) → Key → Entry M → ParseCache M → ParseCache M
  put copyable key e c =
      let c' = discard key c in
      let room = evict e.size c'.entries c' in
      if ltb c.max_bytes e.size || leb c.max_entries 0
      then c'
      else if copyable e.parsed
      then admit key e room
      else room

  abbrev pub clear : ParseCache M → ParseCache M
  clear c = record c { size_bytes = 0; entries = [] }

abbrev pub new_cache : (M : Type 0) → ℕ → ℕ → ParseCache M
new_cache M max_bytes max_entries = record {
  max_bytes = max_bytes;
  max_entries = max_entries;
  size_bytes = 0;
  entries = [];
}
