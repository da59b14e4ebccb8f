-- ===== src/ParseCache/Bounds.antt =====
-- The bounds of the cache after any calls.
use grag.Base.{ℕ, String, List, foldl, foldl_inv, Bool, refl, arith}
use grag.ParseCache.{Key, Entry, ParseCache, retain_selected, get, put, clear, new_cache}
use grag.ParseCache.Room.{IsValid, put-IsValid, get-IsValid, retain_keys-Shrinks}

-- The calls of the cache's methods.
pub data Call (M : Type 0) : Type 0 where
  puts : (M → Bool) → Key → Entry M → Call M
  gets : (M → Bool) → Key → String → String → Call M
  retains : List String → List String → Call M
  clears : Call M

module _ {M : Type 0} where
  unfoldable pub call : ParseCache M → Call M → ParseCache M
  call c (puts copyable key e) = put copyable key e c
  call c (gets copyable key fingerprint parser) = (get copyable key fingerprint parser c).1
  call c (retains repos sources) = retain_selected repos sources c
  call c clears = clear c

  call-IsValid : (c : ParseCache M) (m : Call M) → IsValid c → IsValid (call c m)
  unfolding call
  call-IsValid c (puts copyable key e) v = put-IsValid copyable key e c v
  call-IsValid c (gets copyable key fingerprint parser) v =
      get-IsValid copyable key fingerprint parser c v
  call-IsValid c (retains repos sources) v = (retain_keys-Shrinks repos sources c.entries c v).valid
  call-IsValid c clears v = record {
    counted = refl;
    within_bytes = omega arith;
    within_entries = omega arith;
    distinct = tt;
  }

  -- After any calls on a new cache, `size_bytes` is the sum of the sizes of the entries and at most
  -- `max_bytes`, there are at most `max_entries` entries, and no key has two.
  pub calls-IsValid :
      (max_bytes max_entries : ℕ) (calls : List (Call M))
      → IsValid (foldl call (new_cache M max_bytes max_entries) calls)
  calls-IsValid max_bytes max_entries calls =
      foldl_inv IsValid call call-IsValid (new_cache M max_bytes max_entries) calls (record {
        counted = refl;
        within_bytes = omega arith;
        within_entries = omega arith;
        distinct = tt;
      })
