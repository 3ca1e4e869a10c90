-- ===== src/Executor/Backoff.antt =====
-- The ceiling of the backoff delay (`backoff_ceiling` of executor/__init__.py).
use Prim.Native.Nat.{◌^◌, min}
use native.Mathlib.Nat.{pow-le-pow_right}
use satay_runtime.Prelude.{ℕ, suc, ◌+◌, ◌*◌, ◌-◌, ◌≤◌, ◌<◌, ◌≡◌, arith}
use satay_runtime.Errors.{ok}
use satay_runtime.Executor.{backoff_base, backoff_cap, backoff_ceiling}

-- 2 ^ n grows with n.
power_mono : (n k : ℕ) → 2 ^ n ≤ 2 ^ (n + k)
power_mono n k = pow-le-pow_right (omega arith) (omega arith)

-- From the first failure to the 1024th, the backoff ceiling is returned, never falls, is never above
-- the cap, and is the cap from the seventh failure on.
pub backoff_ceiling_mono :
    (n k : ℕ)
    → n + k < 1024
    → (x : ℕ) × (y : ℕ) × (backoff_ceiling (suc n) ≡ ok x)
      × (backoff_ceiling (suc n + k) ≡ ok y)
      × (x ≤ y)
      × (y ≤ backoff_cap)
      × (6 ≤ n → x ≡ backoff_cap)
unfolding backoff_ceiling
backoff_ceiling_mono n k h =
    let x = min backoff_cap (backoff_base * 2 ^ n) in
    let y = min backoff_cap (backoff_base * 2 ^ (n + k)) in
    (
      x,
      y,
      ground arith,
      (let e : suc n + k - 1 ≡ n + k = omega arith in rw e (ground arith)),
      omega (arith, power_mono n k),
      omega arith,
      λ le. let big : 2 ^ 6 ≤ 2 ^ n = pow-le-pow_right (omega arith) le in omega arith,
    )
