-- ===== src/Domain/QuietWindow.antt =====
-- core/internal/domain/clocktime.go: the quiet window. An instant is a number of nanoseconds since a
-- midnight in Beijing, whose days all have 24 hours; an occurrence is named by its start.
pub mod Boundary
use smart_srun.Prelude.{
  ℕ, ◌+◌, ◌-◌, ◌*◌, ◌/◌, ◌%◌, Bool, true, false, not, ◌&&◌, ◌||◌, Option, none, some, ltb, leb,
  ◌==◌, if◌then◌else◌,
}

abbrev pub minute_length : ℕ
minute_length = 60_000_000_000

abbrev pub day_length : ℕ
day_length = 1440 * minute_length

-- `QuietWindow`: minutes of the day.
pub record QuietWindow : Type 0 where
  pub start : ℕ
  pub end : ℕ

abbrev pub is_empty_window : QuietWindow → Bool
is_empty_window w = w.start == w.end

abbrev pub wraps_midnight : QuietWindow → Bool
wraps_midnight w = ltb w.end w.start

-- `local.Hour()*60 + local.Minute()`.
abbrev pub minute_of : ℕ → ℕ
minute_of at = at / minute_length % 1440

unfoldable pub contains : QuietWindow → ℕ → Bool
contains w at =
    if is_empty_window w
    then false
    else if wraps_midnight w
    then leb w.start (minute_of at) || ltb (minute_of at) w.end
    else leb w.start (minute_of at) && ltb (minute_of at) w.end

-- The start of the day.
abbrev pub day_of : ℕ → ℕ
day_of at = at / day_length * day_length

-- `OccurrenceID`, for an instant at least one day after the origin.
unfoldable pub occurrence_id : QuietWindow → ℕ → Option ℕ
unfolding contains
occurrence_id w at =
    if not (contains w at)
    then none
    else if wraps_midnight w && ltb (minute_of at) w.end
    then some (day_of at - day_length + w.start * minute_length)
    else some (day_of at + w.start * minute_length)

abbrev keep_sooner : ℕ → Option ℕ → ℕ → Option ℕ
keep_sooner at none shifted = if ltb at shifted then some shifted else none
keep_sooner at (some best) shifted =
    if ltb at shifted && ltb shifted best then some shifted else some best

-- `NextBoundary`: the four candidates in the order of the two loops.
unfoldable pub next_boundary : QuietWindow → ℕ → Option ℕ
next_boundary w at =
    let s = day_of at + w.start * minute_length in
    let e = day_of at + w.end * minute_length in
    if is_empty_window w
    then none
    else keep_sooner at (keep_sooner at (keep_sooner at (keep_sooner at none s) (s + day_length)) e)
        (e + day_length)
