-- ===== src/Application/Schedule/Submit.antt =====
-- schedule.go: `onSubmit`.
use smart_srun.Prelude.{
  ℕ, ◌+◌, ◌%◌, ◌^◌, Bool, true, false, not, ◌&&◌, ◌||◌, none, some, List, [], ◌∷◌, ◌++◌, leb,
  if◌then◌else◌, length, elem, filter, bytes_eq,
}
use smart_srun.Prelude.Maps.{update, lookup, erase, insert}
use smart_srun.Domain.Errors.{Failure}
use smart_srun.Application.Action.{
  Kind, State, Message, Action, Request, is_terminal, is_manual, is_logout,
}
use smart_srun.Application.Coordinator.{Coordinator, Env, Receipt}
use smart_srun.Application.Fingerprint.{fingerprint}
use smart_srun.Application.Schedule.Retire.{publish, on_cancel}

pub data Reply : Type 0 where
  accepted : Receipt → Reply
  -- the key was used for another request
  conflict : Reply
  busy : Reply
  -- `Check` or `Admit` refused
  refused : Failure → Reply

abbrev pub is_explicit_choice : Kind → Bool
is_explicit_choice Kind.switch_campus = true
is_explicit_choice Kind.switch_hotspot = true
is_explicit_choice Kind.logout = true
is_explicit_choice _ = false

abbrev is_quiet_transition : Kind → Bool
is_quiet_transition Kind.quiet_hotspot = true
is_quiet_transition Kind.quiet_campus = true
is_quiet_transition _ = false

-- Does the request end this previous action?
pub is_superseded : Request → Action → Bool
is_superseded r previous =
    let same_account = bytes_eq previous.request.account_id r.account_id in
    let quiet =
      is_quiet_transition previous.request.kind && (not (is_logout r.kind) || same_account) in
    let maintenance = is_logout r.kind && same_account && not (is_manual previous.request.kind) in
    not (is_terminal previous.state) && (quiet || maintenance)

unfoldable pub cancel_all : Env → Coordinator → List ℕ → Coordinator
unfolding on_cancel
cancel_all env c [] = c
cancel_all env c (n ∷ ns) = cancel_all env (on_cancel env c n).0 ns

unfoldable pub supersede : Env → Coordinator → Request → Coordinator
unfolding cancel_all is_superseded
supersede env c r =
    if is_explicit_choice r.kind
    then cancel_all env c (filter (λ n. is_superseded r (c.heap n)) c.index)
    else c

new_action : Env → ℕ → Request → Action
new_action env n r = record {
  request = r;
  line = env.lines r;
  state = State.queued;
  phase = none;
  message = Message.blank;
  code = none;
  result_json = [];
  queued_at = env.now;
  started_at = 0;
  ended_at = 0;
  timings = [];
  worker_milliseconds = 0;
  sequence = 0;
  maintenance_deferred = false;
  connectivity = none;
  ordinal = n;
  retired = false;
}

abbrev pub queued_receipt : ℕ → Receipt
queued_receipt n = record { action_id = n; state = State.queued; duplicate = false }

-- The next counter value: a `uint64`.
abbrev pub next_u64 : ℕ → ℕ
next_u64 n = (n + 1) % 2 ^ 64

unfoldable pub enqueue : Env → Coordinator → Request → Coordinator × Reply
unfolding new_action
enqueue env c r =
    let n = next_u64 c.next_id in
    let added = record c {
      next_id = n;
      heap = update c.heap n (new_action env n r);
      index = if elem n c.index then c.index else n ∷ c.index;
      by_key = insert r.idempotency_key n c.by_key;
      queue = c.queue ++ (n ∷ []);
    } in
    (publish added n, Reply.accepted (queued_receipt n))

-- A key that no live action has.
unfoldable pub submit_new : Env → Coordinator → Request → Coordinator × Reply
unfolding supersede enqueue
submit_new env c r = elim (env.check r) [
  | some failure ↦ (c, Reply.refused failure)
  | none ↦ if leb c.queue_limit (length c.queue) then (c, Reply.busy) else elim (env.admit r) [
    | some failure ↦ (c, Reply.refused failure)
    | none ↦ enqueue env (supersede env c r) r
  ]
]

-- A key that the live action `n` has.
unfoldable pub resubmit : Coordinator → ℕ → Request → Coordinator × Reply
resubmit c n r =
    let existing = c.heap n in
    if bytes_eq (fingerprint existing.request) (fingerprint r)
    then (c, Reply.accepted (record { action_id = n; state = existing.state; duplicate = true }))
    else (c, Reply.conflict)

abbrev pub digested : Env → Request → Request
digested env r = record r { private_digest = env.sha256 r.private_json }

unfoldable pub on_submit : Env → Coordinator → Request → Coordinator × Reply
unfolding submit_new resubmit
on_submit env c r =
    let key = r.idempotency_key in
    elim (lookup key c.by_key) [
      | none ↦ submit_new env c (digested env r)
      | some n ↦
          if elem n c.index
          then resubmit c n (digested env r)
          else submit_new env (record c { by_key = erase key c.by_key }) (digested env r)
    ]
