-- ===== src/Policy/Pause.antt =====
-- core/internal/policy/pause.go: the set of reasons for which authentication does not run.
pub mod Derived
use Prim.Native.Nat.{bit_and, bit_or, bit_xor}
use smart_srun.Prelude.{
  ℕ, Bool, true, false, not, ◌&&◌, ◌||◌, Option, none, some, List, [], ◌∷◌, ◌==◌, if◌then◌else◌,
}

pub data PauseReason : Type 0 where
  user_disabled manual_pause quiet_hours service_stopping update_installing : PauseReason
  -- a string that is none of these
  unknown : PauseReason

abbrev pause_order : List PauseReason
pause_order =
    PauseReason.quiet_hours ∷ PauseReason.manual_pause ∷ PauseReason.user_disabled
    ∷ PauseReason.update_installing ∷ PauseReason.service_stopping ∷ []

-- A `uint8` mask.
abbrev pub PauseSet : Type 0
PauseSet = ℕ

-- 1 shifted by the index in `pauseOrder`, or 0.
bit : PauseReason → PauseSet
bit PauseReason.quiet_hours = 1
bit PauseReason.manual_pause = 2
bit PauseReason.user_disabled = 4
bit PauseReason.update_installing = 8
bit PauseReason.service_stopping = 16
bit PauseReason.unknown = 0

-- `With`.
pub with_reason : PauseSet → PauseReason → PauseSet
unfolding bit
with_reason s r = bit_or s (bit r)

-- `Without`: `s &^ bit` on eight bits.
pub without_reason : PauseSet → PauseReason → PauseSet
unfolding bit
without_reason s r = bit_and s (bit_xor 255 (bit r))

pub has : PauseSet → PauseReason → Bool
unfolding bit
has s r = not (bit r == 0) && not (bit_and s (bit r) == 0)

abbrev is_empty_set : PauseSet → Bool
is_empty_set s = s == 0

keep_held : PauseSet → List PauseReason → List PauseReason
keep_held s [] = []
keep_held s (r ∷ rs) = let rest = keep_held s rs in if has s r then r ∷ rest else rest

pub reasons : PauseSet → List PauseReason
unfolding keep_held has
reasons s = keep_held s pause_order

abbrev last_of : List PauseReason → Option PauseReason
last_of [] = none
last_of (r ∷ []) = some r
last_of (r ∷ s ∷ rs) = last_of (s ∷ rs)

-- `Primary`: the last reason in reporting order.
pub primary : PauseSet → Option PauseReason
unfolding reasons
primary s = last_of (reasons s)

pub allows_manual : PauseSet → Bool
unfolding has
allows_manual s = not (has s PauseReason.service_stopping || has s PauseReason.update_installing)

abbrev allows_maintenance : PauseSet → Bool
allows_maintenance s = is_empty_set s

-- `Derive`: the derived reasons are cleared and computed anew, the others stay.
pub derive : PauseSet → Bool → Bool → PauseSet
unfolding with_reason without_reason
derive previous enabled quiet_active =
    let cleared =
      without_reason (without_reason previous PauseReason.user_disabled) PauseReason.quiet_hours in
    let next = if not enabled then with_reason cleared PauseReason.user_disabled else cleared in
    if quiet_active then with_reason next PauseReason.quiet_hours else next
