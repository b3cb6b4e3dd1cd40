-- ===== src/Engine/Backoff.antt =====
-- src/engine.rs: `backoff_duration`, with `Duration::saturating_mul`.
use native.Mathlib.Nat.{pow-suc}
use agentq.Prelude.{
  ℕ, zero, suc, ◌*◌, ◌^◌, ◌≤◌, ◌≡◌, min, leb, if◌then◌else◌, arith, Bool-cases, inl, inr,
}
use agentq.Workflow.{Duration, duration_max, Backoff, fixed, exponential, RetryPolicy}

abbrev saturating_double : Duration → Duration
saturating_double d = min (d * 2) duration_max

-- The rounds left, `duration`, and `max`.
exponential_loop : ℕ → Duration → Duration → Duration
exponential_loop zero duration max = min duration max
exponential_loop (suc rounds) duration max =
    let doubled = saturating_double duration in
    let rest = exponential_loop rounds doubled max in if leb max doubled then max else rest

backoff_by : Backoff → ℕ → Duration
unfolding exponential_loop
backoff_by (fixed d) failed_attempt = d
backoff_by (exponential base max) failed_attempt = exponential_loop failed_attempt base max

unfoldable pub backoff_duration : RetryPolicy → ℕ → Duration
unfolding backoff_by
backoff_duration policy failed_attempt = backoff_by policy.backoff failed_attempt

one-le-pow : (k : ℕ) → 1 ≤ 2 ^ k
one-le-pow zero = omega arith
one-le-pow (suc k) = rw (pow-suc 2 k) (omega (arith, one-le-pow k))

double-pow : (d k : ℕ) → d * 2 ^ suc k ≡ d * 2 * 2 ^ k
double-pow d k = rw (pow-suc 2 k) (grind arith)

le-mul-pow : (d k : ℕ) → d ≤ d * 2 ^ k
le-mul-pow d k = grind (arith, one-le-pow k)

exponential_loop-min :
    (k : ℕ) (d max : Duration) → max ≤ duration_max → exponential_loop k d max ≡ min (d * 2 ^ k) max
unfolding exponential_loop
exponential_loop-min zero d max h = omega arith
exponential_loop-min (suc k) d max h = elim (Bool-cases (leb max (saturating_double d))) [
  | inl reached ↦ rw (double-pow d k, reached) (ground (arith, le-mul-pow (d * 2) k))
  | inr short ↦
      let exact : saturating_double d ≡ d * 2 = ground arith in
      rw (double-pow d k, short, exponential_loop-min k (saturating_double d) max h, exact)
]

-- The wait after a failed attempt `k` under exponential backoff is the base doubled `k` times, up to
-- the maximum, with no overflow on the way.
pub backoff_duration-exponential :
    (max_attempts k : ℕ) (base max : Duration)
    → max ≤ duration_max
    → backoff_duration (record { max_attempts = max_attempts; backoff = exponential base max }) k
      ≡ min (base * 2 ^ k) max
unfolding backoff_duration
backoff_duration-exponential max_attempts k base max h = exponential_loop-min k base max h
