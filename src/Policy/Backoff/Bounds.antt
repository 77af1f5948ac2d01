-- ===== src/Policy/Backoff/Bounds.antt =====
-- core/internal/policy/backoff.go: how long a wait is.
use smart_srun.Prelude.{ℕ, ◌*◌, ◌-◌, ◌^◌, ◌≤◌, arith, min}
use smart_srun.Policy.Backoff.{Backoff, second, shift_of}

shift_of_mono : (i j : ℕ) → i ≤ j → shift_of i ≤ shift_of j
unfolding shift_of
shift_of_mono i j h = ground arith

-- The schedule: the base doubled with each failure after the first, up to the cap, in nanoseconds.
unfoldable pub schedule : Backoff → ℕ → ℕ
schedule b index = min b.cap (b.base * 2 ^ (index - 1)) * second
