-- ===== src/Refresh/Backoff.antt =====
-- The delays between the attempts.
use grag.Base.{ℕ, zero, suc, ◌*◌, ◌^◌, ◌-◌, ◌≤◌, min, arith}
use grag.Refresh.{Refresher, backoff}

power_pos : (n : ℕ) → 1 ≤ 2 ^ n
power_pos zero = omega arith
power_pos (suc n) = omega (arith, power_pos n)

power_mono : (m n : ℕ) → m ≤ n → 2 ^ m ≤ 2 ^ n
power_mono zero n h = power_pos n
power_mono (suc m) zero h = absurd (omega arith)
power_mono (suc m) (suc n) h = omega (arith, power_mono m n (omega arith))

times_mono : (k a b : ℕ) → a ≤ b → k * a ≤ k * b
times_mono zero a b h = omega arith
times_mono (suc k) a b h = omega (arith, times_mono k a b h)

-- A delay is between the base and the maximum, which `__init__` makes no less than the base, and more
-- failures never give a shorter one.
pub backoff_bounds :
    (r : Refresher) (m n : ℕ)
    → r.retry_base ≤ r.retry_max
    → m ≤ n
    → (r.retry_base ≤ backoff r m) × (backoff r n ≤ r.retry_max) × (backoff r m ≤ backoff r n)
unfolding backoff
backoff_bounds r m n h k =
    let below =
      times_mono r.retry_base (2 ^ min (m - 1) 20) (2 ^ min (n - 1) 20)
        (power_mono (min (m - 1) 20) (min (n - 1) 20) (omega arith)) in
    let above = times_mono r.retry_base 1 (2 ^ min (m - 1) 20) (power_pos (min (m - 1) 20)) in
    (omega (arith, above), omega arith, omega (arith, below))
