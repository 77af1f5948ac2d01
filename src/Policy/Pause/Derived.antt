-- ===== src/Policy/Pause/Derived.antt =====
-- core/internal/policy/pause.go: what `Derive` and the permissions amount to. A set has eight bits,
-- so the facts are checked at each of its 256 values.
use smart_srun.Prelude.{
  ◌<◌, ◌≡◌, refl, Bool, true, false, not, ◌&&◌, ◌||◌, Option, some, arith, all_below,
  all_below_sound,
}
use smart_srun.Policy.Pause.{
  PauseReason, PauseSet, with_reason, without_reason, has, primary, allows_manual, derive,
}

-- Equality of Booleans.
abbrev same : Bool → Bool → Bool
same true b = b
same false b = not b

same-eq : (a b : Bool) → same a b ≡ true → a ≡ b
same-eq a b h = ground arith

abbrev pub is_unknown : PauseReason → Bool
is_unknown PauseReason.unknown = true
is_unknown _ = false

-- `service stopping` or `update installing`.
abbrev pub is_frozen : Option PauseReason → Bool
is_frozen (some PauseReason.service_stopping) = true
is_frozen (some PauseReason.update_installing) = true
is_frozen _ = false

abbrev pub same_reason : PauseReason → PauseReason → Bool
same_reason PauseReason.user_disabled PauseReason.user_disabled = true
same_reason PauseReason.manual_pause PauseReason.manual_pause = true
same_reason PauseReason.quiet_hours PauseReason.quiet_hours = true
same_reason PauseReason.service_stopping PauseReason.service_stopping = true
same_reason PauseReason.update_installing PauseReason.update_installing = true
same_reason PauseReason.unknown PauseReason.unknown = true
same_reason _ _ = false

-- The reasons that follow from the configuration and the clock.
abbrev is_held_after : PauseSet → Bool → Bool → PauseReason → Bool
is_held_after previous enabled quiet PauseReason.user_disabled = not enabled
is_held_after previous enabled quiet PauseReason.quiet_hours = quiet
is_held_after previous enabled quiet r = has previous r

-- One row of the table.
abbrev derive_row : Bool → Bool → PauseReason → PauseSet → Bool
derive_row enabled quiet r s =
    same (has (derive s enabled quiet) r) (is_held_after s enabled quiet r)

derive_table :
    (enabled quiet : Bool) (r : PauseReason) → all_below 256 (derive_row enabled quiet r) ≡ true
unfolding all_below has derive
derive_table true true PauseReason.user_disabled = refl
derive_table true true PauseReason.manual_pause = refl
derive_table true true PauseReason.quiet_hours = refl
derive_table true true PauseReason.service_stopping = refl
derive_table true true PauseReason.update_installing = refl
derive_table true true PauseReason.unknown = refl
derive_table true false PauseReason.user_disabled = refl
derive_table true false PauseReason.manual_pause = refl
derive_table true false PauseReason.quiet_hours = refl
derive_table true false PauseReason.service_stopping = refl
derive_table true false PauseReason.update_installing = refl
derive_table true false PauseReason.unknown = refl
derive_table false true PauseReason.user_disabled = refl
derive_table false true PauseReason.manual_pause = refl
derive_table false true PauseReason.quiet_hours = refl
derive_table false true PauseReason.service_stopping = refl
derive_table false true PauseReason.update_installing = refl
derive_table false true PauseReason.unknown = refl
derive_table false false PauseReason.user_disabled = refl
derive_table false false PauseReason.manual_pause = refl
derive_table false false PauseReason.quiet_hours = refl
derive_table false false PauseReason.service_stopping = refl
derive_table false false PauseReason.update_installing = refl
derive_table false false PauseReason.unknown = refl

-- After `Derive` the set holds "disabled" exactly if automatic authentication is off, "quiet hours"
-- exactly if the window is active, and every other reason exactly if it held it before.
pub has-derive :
    (previous : PauseSet) (enabled quiet : Bool) (r : PauseReason)
    → previous < 256
    → has (derive previous enabled quiet) r ≡ is_held_after previous enabled quiet r
has-derive previous enabled quiet r h =
    same-eq (has (derive previous enabled quiet) r) (is_held_after previous enabled quiet r)
      (all_below_sound 256 (derive_row enabled quiet r) previous (derive_table enabled quiet r) h)

abbrev with_row : PauseReason → PauseReason → PauseSet → Bool
with_row r q s =
    same (has (with_reason s r) q) (same_reason r q && not (is_unknown r) || has s q)
    && same (has (without_reason s r) q) (not (same_reason r q) && has s q)

with_table : (r q : PauseReason) → all_below 256 (with_row r q) ≡ true
unfolding all_below has with_reason without_reason
with_table PauseReason.user_disabled PauseReason.user_disabled = refl
with_table PauseReason.user_disabled PauseReason.manual_pause = refl
with_table PauseReason.user_disabled PauseReason.quiet_hours = refl
with_table PauseReason.user_disabled PauseReason.service_stopping = refl
with_table PauseReason.user_disabled PauseReason.update_installing = refl
with_table PauseReason.user_disabled PauseReason.unknown = refl
with_table PauseReason.manual_pause PauseReason.user_disabled = refl
with_table PauseReason.manual_pause PauseReason.manual_pause = refl
with_table PauseReason.manual_pause PauseReason.quiet_hours = refl
with_table PauseReason.manual_pause PauseReason.service_stopping = refl
with_table PauseReason.manual_pause PauseReason.update_installing = refl
with_table PauseReason.manual_pause PauseReason.unknown = refl
with_table PauseReason.quiet_hours PauseReason.user_disabled = refl
with_table PauseReason.quiet_hours PauseReason.manual_pause = refl
with_table PauseReason.quiet_hours PauseReason.quiet_hours = refl
with_table PauseReason.quiet_hours PauseReason.service_stopping = refl
with_table PauseReason.quiet_hours PauseReason.update_installing = refl
with_table PauseReason.quiet_hours PauseReason.unknown = refl
with_table PauseReason.service_stopping PauseReason.user_disabled = refl
with_table PauseReason.service_stopping PauseReason.manual_pause = refl
with_table PauseReason.service_stopping PauseReason.quiet_hours = refl
with_table PauseReason.service_stopping PauseReason.service_stopping = refl
with_table PauseReason.service_stopping PauseReason.update_installing = refl
with_table PauseReason.service_stopping PauseReason.unknown = refl
with_table PauseReason.update_installing PauseReason.user_disabled = refl
with_table PauseReason.update_installing PauseReason.manual_pause = refl
with_table PauseReason.update_installing PauseReason.quiet_hours = refl
with_table PauseReason.update_installing PauseReason.service_stopping = refl
with_table PauseReason.update_installing PauseReason.update_installing = refl
with_table PauseReason.update_installing PauseReason.unknown = refl
with_table PauseReason.unknown PauseReason.user_disabled = refl
with_table PauseReason.unknown PauseReason.manual_pause = refl
with_table PauseReason.unknown PauseReason.quiet_hours = refl
with_table PauseReason.unknown PauseReason.service_stopping = refl
with_table PauseReason.unknown PauseReason.update_installing = refl
with_table PauseReason.unknown PauseReason.unknown = refl

-- Adding a reason adds that one and no other, and removing one removes that one and no other; an
-- unknown reason is never held.
pub has-with_reason :
    (s : PauseSet) (r q : PauseReason)
    → s < 256
    → (has (with_reason s r) q ≡ (same_reason r q && not (is_unknown r) || has s q))
      × (has (without_reason s r) q ≡ (not (same_reason r q) && has s q))
has-with_reason s r q h =
    let row = all_below_sound 256 (with_row r q) s (with_table r q) h in
    (
      same-eq (has (with_reason s r) q) (same_reason r q && not (is_unknown r) || has s q)
          (ground arith),
      same-eq (has (without_reason s r) q) (not (same_reason r q) && has s q) (ground arith),
    )

abbrev frozen_row : PauseSet → Bool
frozen_row s = same (allows_manual s) (not (is_frozen (primary s)))

frozen_table : all_below 32 frozen_row ≡ true
unfolding all_below allows_manual primary
frozen_table = refl

-- A user's action is refused exactly when the reason that is shown is a service stop or an update:
-- these two outrank every other reason in the report.
pub allows_manual-primary : (s : PauseSet) → s < 32 → allows_manual s ≡ not (is_frozen (primary s))
allows_manual-primary s h =
    same-eq (allows_manual s) (not (is_frozen (primary s)))
      (all_below_sound 32 frozen_row s frozen_table h)
