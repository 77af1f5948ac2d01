-- ===== src/Examples/Nights.antt =====
-- A window from 23:00 to 06:00.
use smart_srun.Prelude.{ℕ, ◌+◌, ◌*◌, ◌≡◌, ◌≤◌, ◌<◌, refl, true, false, not, arith}
use smart_srun.Domain.QuietWindow.{QuietWindow, minute_length, day_length, contains, next_boundary}
use smart_srun.Domain.QuietWindow.Boundary.{
  next_boundary_later, contains-next_boundary, next_boundary_lem,
}
use smart_srun.Policy.Priority.{Priority}
use smart_srun.Domain.Config.{QuietConfig}
use smart_srun.Policy.Quiet.{evaluate_quiet, quiet_permits}
use smart_srun.Policy.Quiet.Permits.{quiet_permits-next}

abbrev night : QuietWindow
night = record { start = 1380; end = 360 }

-- Two in the morning of the third day, and six.
abbrev two : ℕ
two = 2 * day_length + 120 * minute_length

abbrev six : ℕ
six = 2 * day_length + 360 * minute_length

next_boundary_later_test : (two < six) × (six ≤ two + day_length)
unfolding next_boundary
next_boundary_later_test = next_boundary_later night two six (omega arith) (omega arith) refl

contains-next_boundary_example : contains night (two + minute_length) ≡ contains night two
unfolding next_boundary
contains-next_boundary_example =
    contains-next_boundary night two (two + minute_length) six (omega arith) (omega arith) refl
      (omega arith) (omega arith)

next_boundary_lem_example : contains night six ≡ not (contains night two)
unfolding next_boundary
next_boundary_lem_example = next_boundary_lem night two six (omega arith) (omega arith) refl

abbrev quiet : QuietConfig
quiet = record { enabled = true; start = 1380; end = 360; force_logout = true }

quiet_permits-next_example :
    (quiet_permits (evaluate_quiet quiet (two + minute_length)) Priority.periodic false
      ≡ quiet_permits (evaluate_quiet quiet two) Priority.periodic false)
    × (quiet_permits (evaluate_quiet quiet six) Priority.maintenance false
        ≡ not (quiet_permits (evaluate_quiet quiet two) Priority.maintenance false))
unfolding next_boundary evaluate_quiet
quiet_permits-next_example =
    quiet_permits-next quiet two (two + minute_length) six Priority.periodic false (omega arith)
      (omega arith) refl (omega arith) (omega arith)
