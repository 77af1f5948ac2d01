-- ===== src/Domain/QuietWindow/Boundary.antt =====
-- core/internal/domain/clocktime.go: the next boundary is where membership changes.
use smart_srun.Prelude.{ℕ, ◌+◌, ◌≤◌, ◌<◌, ◌≡◌, not, some, arith}
use smart_srun.Domain.QuietWindow.{QuietWindow, day_length, contains, next_boundary}

-- The next boundary of a window within a day lies after the instant, at most a day later.
pub next_boundary_later :
    (w : QuietWindow) (at next : ℕ)
    → w.start < 1440
    → w.end < 1440
    → next_boundary w at ≡ some next
    → (at < next) × (next ≤ at + day_length)
unfolding next_boundary
next_boundary_later w at next hs he h = ground arith

-- For a window within a day, membership does not change until the next boundary.
pub contains-next_boundary :
    (w : QuietWindow) (at t next : ℕ)
    → w.start < 1440
    → w.end < 1440
    → next_boundary w at ≡ some next
    → at ≤ t
    → t < next
    → contains w t ≡ contains w at
unfolding next_boundary contains
contains-next_boundary w at t next hs he h lo hi = ground arith

-- For a window within a day, membership changes at the next boundary.
pub next_boundary_lem :
    (w : QuietWindow) (at next : ℕ)
    → w.start < 1440
    → w.end < 1440
    → next_boundary w at ≡ some next
    → contains w next ≡ not (contains w at)
unfolding next_boundary contains
next_boundary_lem w at next hs he h = ground arith
