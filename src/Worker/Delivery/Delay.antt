-- ===== src/Worker/Delivery/Delay.antt =====
-- `retryDelayMs` of revocation-delivery.service.ts.
use native.Mathlib.Nat.{pow-le-pow_right, one-le-pow, mul-le-mul_left, pow-succ'}
use seleksi2_labpro.Prelude.{ℕ, suc, ◌+◌, ◌-◌, ◌*◌, ◌^◌, ◌≤◌, ◌<◌, ◌≡◌, min, arith}
use seleksi2_labpro.Worker.Delivery.{RetryPolicy, retry_delay_ms}

exponent_le : (m n : ℕ) → m ≤ n → min (m - 1) 30 ≤ min (n - 1) 30
exponent_le m n h = omega arith

power_le : (m n : ℕ) → m ≤ n → 2 ^ min (m - 1) 30 ≤ 2 ^ min (n - 1) 30
power_le m n h = pow-le-pow_right (omega arith) (exponent_le m n h)

-- The delay never passes the configured maximum, does not shrink as the attempts grow, and is at
-- least the smaller of the base and the maximum.
pub retry_delay_bounds :
    (c : RetryPolicy) (m n : ℕ)
    → m ≤ n
    → (retry_delay_ms c n ≤ c.retry_max_ms)
      × (retry_delay_ms c m ≤ retry_delay_ms c n)
      × (min c.retry_base_ms c.retry_max_ms ≤ retry_delay_ms c m)
unfolding retry_delay_ms
retry_delay_bounds c m n h =
    let grows = mul-le-mul_left c.retry_base_ms (power_le m n h) in
    let starts = mul-le-mul_left c.retry_base_ms (one-le-pow (min (m - 1) 30) 2 (omega arith)) in
    (omega arith, omega arith, omega arith)

-- The first delay is the base; each of the next thirty is twice the one before; all of them up to
-- the maximum.
pub retry_delay_doubles :
    (c : RetryPolicy) (n : ℕ)
    → n < 30
    → (retry_delay_ms c 1 ≡ min c.retry_base_ms c.retry_max_ms)
      × (retry_delay_ms c (n + 2) ≡ min (2 * retry_delay_ms c (n + 1)) c.retry_max_ms)
unfolding retry_delay_ms
retry_delay_doubles c n h = (omega arith, rw (next, same, pow-succ' 2 n) (omega arith))
  where
    next : min (n + 2 - 1) 30 ≡ suc n
    next = omega arith

    same : min (n + 1 - 1) 30 ≡ n
    same = omega arith
