-- ===== src/Policy/Backoff.antt =====
-- core/internal/policy/backoff.go and retry.go, for waits of whole seconds: a float64 holds each such
-- number below 2 ^ 92 that is a multiple of a power of two large enough, so the products are exact
-- for bases below 2 ^ 30. Durations are nanoseconds, and caps are below 2 ^ 63 of them. The power of
-- two is cut to 64 bits, as `uint64(1) << shift` is.
pub mod Bounds
use smart_srun.Prelude.{
  ℕ, zero, suc, ◌+◌, ◌-◌, ◌*◌, ◌^◌, ◌%◌, ◌≤◌, ◌<◌, ◌≡◌, refl, Bool, true, false, not, ◌&&◌, ltb,
  leb, ◌==◌, if◌then◌else◌, arith, min, ◌⊎◌, inl, inr,
}

abbrev pub minimum_interval : ℕ
minimum_interval = 100_000_000

abbrev pub second : ℕ
second = 1_000_000_000

-- `math.MaxInt32`.
abbrev max_failures : ℕ
max_failures = 2147483647

-- `Next`, for a count that is not negative.
next_failures : ℕ → ℕ
next_failures f = if leb max_failures f then max_failures else f + 1

abbrev max_shift : ℕ
max_shift = 62

-- `Backoff`: seconds.
pub record Backoff : Type 0 where
  pub base : ℕ
  pub cap : ℕ

-- `1 << n`, before it is cut to 64 bits.
pub power_of_two : ℕ → ℕ
power_of_two zero = 1
power_of_two (suc n) = 2 * power_of_two n

pub clamp_interval : ℕ → ℕ
clamp_interval d = if ltb d minimum_interval then minimum_interval else d

-- The shift: the index less one, from 0 to 62.
pub shift_of : ℕ → ℕ
shift_of index = if ltb max_shift (index - 1) then max_shift else index - 1

pub wait : Backoff → ℕ → ℕ
unfolding clamp_interval shift_of power_of_two
wait b index =
    let doubled = b.base * (power_of_two (shift_of index) % 2 ^ 64) in
    clamp_interval ((if ltb b.cap doubled then b.cap else doubled) * second)

pub record RetryPlan : Type 0 where
  pub enabled : Bool
  pub max_retries : ℕ
  pub backoff : Backoff

abbrev flat_round_attempts : ℕ
flat_round_attempts = 2

-- `RoundLimit`; 0 is no limit.
round_limit : RetryPlan → ℕ
round_limit p =
    if not p.enabled
    then flat_round_attempts
    else if leb p.max_retries 0
    then 0
    else p.max_retries + 1

-- `RetryPlan.Wait`.
plan_wait : RetryPlan → ℕ → ℕ
unfolding wait
plan_wait p failures =
    if not p.enabled then clamp_interval (p.backoff.base * second) else wait p.backoff failures

round_exhausted : RetryPlan → ℕ → Bool
unfolding round_limit
round_exhausted p failures = ltb 0 (round_limit p) && leb (round_limit p) failures

round_cooldown : RetryPlan → ℕ
unfolding clamp_interval
round_cooldown p = clamp_interval (p.backoff.cap * second)
