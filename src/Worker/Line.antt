-- ===== src/Worker/Line.antt =====
-- core/internal/application/authworker.go: where an account's line is, and the generations that tell one
-- observation of it from another. A generation is a 64-bit counter, which goes up once for each move of
-- a line, so it is a number here. Between two calls of an action the interface may do anything, but only
-- this action writes what the worker keeps.
use smart_srun.Prelude.{
  ℕ, ◌+◌, Bool, true, false, not, ◌&&◌, Option, none, some, ◌==◌, if◌then◌else◌, is_empty, Bytes,
  bytes_eq,
}
use smart_srun.Prelude.Maps.{lookup, insert, erase}
use smart_srun.Domain.Binding.{Binding, addr_eq, addrs_eq, stamped}
use smart_srun.Domain.Config.{Config, CampusAccount, is_wired}
use smart_srun.Domain.Errors.{ErrorCode}
use smart_srun.Auth.Answer.{Reply}
use smart_srun.Worker.World.{
  World, M, pure, ◌>>=◌, ◌>>◌, checked, when, view, kept, keep, resolve, retire,
}

-- `sameLine`.
unfoldable pub same_line : Binding → Binding → Bool
same_line before after =
    bytes_eq before.l3_device after.l3_device
    && (before.if_index == after.if_index
        && (addr_eq before.source_ipv4 after.source_ipv4
            && addrs_eq before.dns_servers after.dns_servers))

-- `lineInterface`.
unfoldable pub line_interface : Config → CampusAccount → Reply Bytes
line_interface c a =
    if is_wired a
    then (if is_empty a.wired_iface
        then Reply.err (some ErrorCode.invalid_config)
        else Reply.ok a.wired_iface)
    else if is_empty c.sta_iface
    then Reply.err (some ErrorCode.invalid_config)
    else Reply.ok c.sta_iface

-- `previous.Generation`, where an account that was not seen has the zero binding.
abbrev pub generation_of : Option Binding → ℕ
generation_of none = 0
generation_of (some b) = b.generation

abbrev pub is_seen_at : ℕ → Option Binding → Bool
is_seen_at g none = false
is_seen_at g (some b) = b.generation == g

-- Whether an observation is a move: the account was not seen, or on another line.
abbrev pub is_moved : Option Binding → Binding → Bool
is_moved none after = true
is_moved (some before) after = not (same_line before after)

module _ {W : World} where
  -- `invalidateLine`.
  unfoldable pub invalidate_line : Bytes → ℕ → M W (Unit {0})
  invalidate_line account_id generation = do
    previous ← kept (λ w. lookup account_id w.seen)
    when (not (is_seen_at generation previous)) (pure tt) (do
      next ← kept (λ w. w.generation + 1)
      seen ← kept (λ w. erase account_id w.seen)
      keep next seen
      retire account_id next)

  -- `a.generation.Add(1)`.
  unfoldable pub next_generation : M W ℕ
  next_generation = do
    next ← kept (λ w. w.generation + 1)
    seen ← kept (λ w. w.seen)
    keep next seen
    pure next

  -- `a.seen[accountID] = binding`.
  unfoldable pub remember : Bytes → Binding → M W (Unit {0})
  remember account_id b = do
    generation ← kept (λ w. w.generation)
    seen ← kept (λ w. insert account_id b w.seen)
    keep generation seen

  -- The stamp of an observation: the generation that the account is on, or a new one.
  unfoldable pub stamp_of : Option Binding → M W ℕ
  stamp_of none = next_generation
  stamp_of (some b) = pure b.generation

  -- The generation that an observation gets.
  unfoldable pub settle : Option Binding → ℕ → Binding → M W ℕ
  settle none stamp b = pure stamp
  settle (some before) stamp b = when (same_line before b) (pure stamp) next_generation

  -- `observeLine`: the binding, and whether the observation failed.
  unfoldable pub observe_line : Bytes → Bytes → M W (Binding × Option (Option ErrorCode))
  observe_line account_id iface = do
    previous ← kept (λ w. lookup account_id w.seen)
    stamp ← stamp_of previous
    checked (resolve iface stamp)
        (λ e. do invalidate_line account_id stamp; pure (stamped stamp, some e))
        (λ b. do
          generation ← settle previous stamp b
          let here : Binding = record b { generation = generation }
          remember account_id here
          when (is_moved previous b) (retire account_id generation) (pure tt)
          pure (here, none))

  -- The end of `confirmUnchanged`.
  unfoldable pub compare_line : Bytes → Binding → Bytes → M W (Reply (Unit {0}))
  compare_line account_id binding iface =
      checked (resolve iface binding.generation)
        (λ e. do invalidate_line account_id binding.generation; pure (Reply.err e))
        (λ now. when (same_line now binding) (pure (Reply.ok tt)) (do
          invalidate_line account_id binding.generation
          pure (Reply.err (some ErrorCode.binding_changed))))

  -- `confirmUnchanged`, for an account and the binding of its attempt.
  unfoldable pub confirm_unchanged : CampusAccount → Binding → M W (Reply (Unit {0}))
  confirm_unchanged account binding = do
    iface ← view (λ s. line_interface (W.config s) account)
    checked (pure iface) (λ e. pure (Reply.err e)) (compare_line account.id binding)
