-- ===== src/Application/Schedule/Retire.antt =====
-- schedule.go: `publish`, `retire`, `removeFromQueue`, `onCancel` and `onPhase`.
use smart_srun.Prelude.{
  ℕ, Bool, true, false, not, ◌||◌, Option, none, some, List, [], ◌∷◌, ◌++◌, Bytes, ltb, ◌==◌,
  if◌then◌else◌, length, elem, filter,
}
use smart_srun.Prelude.Maps.{update, lookup, erase, find}
use smart_srun.Domain.Errors.{ErrorCode}
use smart_srun.Application.Action.{
  State, Message, Action, is_terminal, is_known_phase, transition, public_copy,
}
use smart_srun.Application.Coordinator.{Coordinator, Run, Env, PhaseReport}

-- Write one action.
abbrev pub put : Coordinator → ℕ → Action → Coordinator
put c n a = record c { heap = update c.heap n a }

abbrev pub publish : Coordinator → ℕ → Coordinator
publish c n = record c { published = public_copy (c.heap n) ∷ c.published }

abbrev is_id : ℕ → Option ℕ → Bool
is_id n none = false
is_id n (some m) = m == n

-- What `retire` trims: the keys of the two maps, and the terminals in the order they finished.
pub record History : Type 0 where
  pub index : List ℕ
  pub by_key : List (Bytes × ℕ)
  pub terminals : List ℕ

-- The body of the loop in `retire`, for the oldest terminal.
pub evict : (ℕ → Action) → History → ℕ → History
evict heap h oldest =
    let key = (heap oldest).request.idempotency_key in
    if elem oldest h.index
    then record h {
      by_key = if is_id oldest (lookup key h.by_key) then erase key h.by_key else h.by_key;
      index = filter (λ n. not (n == oldest)) h.index;
    }
    else h

-- `for len(c.terminals) > c.history`, over the terminals that are left.
unfoldable pub trim : (ℕ → Action) → ℕ → History → List ℕ → History
unfolding evict
trim heap limit h [] = record h { terminals = [] }
trim heap limit h (oldest ∷ rest) =
    let next = trim heap limit (evict heap h oldest) rest in
    if ltb limit (length (oldest ∷ rest)) then next else record h { terminals = oldest ∷ rest }

abbrev file_away : Action → Action
file_away a = record a { request = record a.request { private_json = [] }; retired = true }

abbrev pub history_of : Coordinator → History
history_of c = record { index = c.index; by_key = c.by_key; terminals = c.terminals }

-- The heap and the history after an action was filed.
abbrev pub filed : Coordinator → ℕ → Coordinator
filed c n =
    let heap = update c.heap n (file_away (c.heap n)) in
    let h = trim heap c.history (history_of c) (c.terminals ++ (n ∷ [])) in
    record c { heap = heap; index = h.index; by_key = h.by_key; terminals = h.terminals }

unfoldable pub retire : Coordinator → ℕ → Coordinator
unfolding trim
retire c n = if (c.heap n).retired || not (is_terminal (c.heap n).state) then c else filed c n

-- `removeFromQueue`, and the removal in `takeRunnable`: the first entry that is `n`.
unfoldable pub remove_first : ℕ → List ℕ → List ℕ
remove_first n [] = []
remove_first n (x ∷ xs) = let rest = remove_first n xs in if x == n then xs else x ∷ rest

-- Change the run of one action.
unfoldable pub change_run : ℕ → (Run → Run) → List (ℕ × Run) → List (ℕ × Run)
change_run n f [] = []
change_run n f ((m, r) ∷ rs) = (m, if m == n then f r else r) ∷ change_run n f rs

abbrev pub stop_run : Run → Run
stop_run r = record r { stopping = true }

-- A running action is told to stop and keeps its line; a waiting one leaves the queue.
unfoldable pub cancel_live : Coordinator → ℕ → Action → Coordinator
unfolding remove_first change_run retire
cancel_live c n a = elim (find n c.running) [
  | some _ ↦ publish (put (record c { running = change_run n stop_run c.running }) n a) n
  | none ↦
      let waiting = record c { queue = remove_first n c.queue } in
      publish (retire (put waiting n (record a { message = Message.cancelled_before_start })) n) n
]

unfoldable pub on_cancel : Env → Coordinator → ℕ → Coordinator × Option ErrorCode
unfolding transition cancel_live
on_cancel env c n =
    let moved = (transition (c.heap n) State.cancelled env.now).0 in
    let a = record moved { message = Message.action_cancelled; code = some ErrorCode.cancelled } in
    if not (elem n c.index)
    then (c, some ErrorCode.not_found)
    else if is_terminal (c.heap n).state
    then (c, none)
    else (cancel_live c n a, none)

abbrev pub is_running : Coordinator → ℕ → Bool
is_running c n = elim (find n c.running) [ none ↦ false | some _ ↦ true ]

unfoldable pub on_phase : Coordinator → PhaseReport → Coordinator
on_phase c report =
    if not (is_known_phase report.phase)
      || not (elem report.id c.index)
      || is_terminal (c.heap report.id).state
      || not (is_running c report.id)
    then c
    else publish (put c report.id (record (c.heap report.id) { phase = some report.phase }))
        report.id
