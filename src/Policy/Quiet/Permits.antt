-- ===== src/Policy/Quiet/Permits.antt =====
-- When an action is permitted by the quiet hours of core/internal/policy/quiet.go.
use smart_srun.Prelude.{
  ℕ, ◌≡◌, ◌≤◌, ◌<◌, refl, sym, ◌∙◌, inl, inr, Bool, true, false, not, some, is_some, Bool-cases,
  arith,
}
use smart_srun.Domain.QuietWindow.{QuietWindow, contains, occurrence_id, next_boundary}
use smart_srun.Domain.QuietWindow.Boundary.{contains-next_boundary, next_boundary_lem}
use smart_srun.Policy.Priority.{Priority}
use smart_srun.Domain.Config.{QuietConfig, window}
use smart_srun.Policy.Quiet.{evaluate_quiet, quiet_permits}

is_some-occurrence_id : (w : QuietWindow) (at : ℕ) → is_some (occurrence_id w at) ≡ contains w at
unfolding occurrence_id
is_some-occurrence_id w at = ground arith

active-evaluate_quiet :
    (q : QuietConfig) (at : ℕ)
    → q.enabled ≡ true
    → (evaluate_quiet q at).active ≡ contains (window q) at
unfolding evaluate_quiet
active-evaluate_quiet q at e = rw e (is_some-occurrence_id (window q) at)

next_on :
    (q : QuietConfig) (at : ℕ)
    → q.enabled ≡ true
    → (evaluate_quiet q at).next ≡ next_boundary (window q) at
unfolding evaluate_quiet
next_on q at e = rw e refl

-- Where there is a next instant, the quiet hours are enabled, and it is the window's.
next-evaluate_quiet :
    (q : QuietConfig) (at next : ℕ)
    → (evaluate_quiet q at).next ≡ some next
    → (q.enabled ≡ true) × (next_boundary (window q) at ≡ some next)
unfolding evaluate_quiet
next-evaluate_quiet q at next h = elim (Bool-cases q.enabled) [
  | inl e ↦ (e, sym (next_on q at e) ∙ h)
  | inr e ↦ ground (arith, h, e)
]

-- Where the quiet hours start and end within a day, and the state at an instant names a next one: what
-- is permitted does not change before that one, and then it changes for an automatic action that
-- nobody asked for.
pub quiet_permits-next :
    (q : QuietConfig) (at t next : ℕ) (p : Priority) (override : Bool)
    → q.start < 1440
    → q.end < 1440
    → (evaluate_quiet q at).next ≡ some next
    → at ≤ t
    → t < next
    → (quiet_permits (evaluate_quiet q t) p override
        ≡ quiet_permits (evaluate_quiet q at) p override)
      × (quiet_permits (evaluate_quiet q next) Priority.maintenance false
          ≡ not (quiet_permits (evaluate_quiet q at) Priority.maintenance false))
unfolding quiet_permits
quiet_permits-next q at t next p override s e h lo hi =
    let (on, n) = next-evaluate_quiet q at next h in
    let a = active-evaluate_quiet q at on in
    let b = active-evaluate_quiet q t on in
    let c = active-evaluate_quiet q next on in
    let same = contains-next_boundary (window q) at t next s e n lo hi in
    let other = next_boundary_lem (window q) at next s e n in
    (ground (arith, b ∙ same ∙ sym a), ground (arith, a, c, other))
