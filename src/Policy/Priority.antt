-- ===== src/Policy/Priority.antt =====
-- core/internal/policy/priority.go. Higher wins.
use smart_srun.Prelude.{ℕ}

pub data Priority : Type 0 where
  periodic maintenance quiet_boundary user_action recovery freeze : Priority

-- The value of each constant: `iota + 1`.
abbrev pub rank : Priority → ℕ
rank Priority.periodic = 1
rank Priority.maintenance = 2
rank Priority.quiet_boundary = 3
rank Priority.user_action = 4
rank Priority.recovery = 5
rank Priority.freeze = 6
