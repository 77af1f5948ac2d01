-- ===== src/Wireless/Atomic.antt =====
-- The life of one wireless transaction of core/internal/wireless/transaction.go: `Begin`, then any
-- operations in any order, each under its own schedule of faults.
pub mod Undone
pub mod Pending
pub mod Edited
pub mod Lost
use smart_srun.Prelude.{
  ℕ, ◌≡◌, refl, sym, ◌∙◌, ap, subst, ◌⊎◌, inl, inr, Option, some, List, [], ◌∷◌, Bytes, Bool, true,
}
use smart_srun.Wireless.Journal.{Key, Phase}
use smart_srun.Wireless.Machine.{
  Store, IsLawful, Change, Value, Machine, Result, ok, Fault, written, are_options,
}
use smart_srun.Wireless.Machine.Faults.{Ensures}
use smart_srun.Wireless.Transaction.{
  Plan, begin, apply, await_confirm, confirm, planned_journal, phase_eq,
}
use smart_srun.Wireless.Rollback.{Outcome, rollback, recover}
use smart_srun.Wireless.Rollback.Entries.{IsInjective}
use smart_srun.Wireless.Invariant.{IsSound, Kept, AtStart}
use smart_srun.Wireless.Invariant.Forward.{apply-Kept, await_confirm-Kept, confirm-Kept}
use smart_srun.Wireless.Invariant.Backward.{rollback-Kept, IsComplete}
use smart_srun.Wireless.Invariant.Restart.{recover-Kept, IsRecovered}
use smart_srun.Wireless.Invariant.Start.{begin-Begun}

-- An operation on the transaction that is there.
pub data Step : Type 0 where
  apply_step : List Change → Step
  await_step confirm_step rollback_step : Step
  -- a start of the program, at a revision of the configuration and a time
  restart_step : ℕ → ℕ → Step

module _ {S : Store} (hash : Bytes → Bytes → Bytes) where
  unfoldable pub after_step : Step → Machine S → List Fault → Machine S
  after_step (Step.apply_step cs) m fs = (apply hash cs m fs).1
  after_step Step.await_step m fs = (await_confirm m fs).1
  after_step Step.confirm_step m fs = (confirm m fs).1
  after_step Step.rollback_step m fs = (rollback hash m fs).1
  after_step (Step.restart_step revision now) m fs = (recover hash revision now m fs).1

  unfoldable pub run : List (Step × List Fault) → Machine S → Machine S
  run [] m = m
  run ((s, fs) ∷ ss) m = run ss (after_step s m fs)

module _ {S : Store} (law : IsLawful S) (hash : Bytes → Bytes → Bytes)
    (decode : Bytes → Option (List Bytes)) (p : Plan) (before : Key → Value)
    (sound : IsSound hash decode p before) (salt : Bytes) (now : ℕ) where
  after_step-Kept :
      (s : Step) (fs : List Fault) (m : Machine S)
      → Kept S p before (planned_journal hash p salt now before) m
      → Kept S p before (planned_journal hash p salt now before) (after_step hash s m fs)
  unfolding after_step
  after_step-Kept (Step.apply_step cs) fs m h =
      (apply-Kept law hash decode p before sound salt now cs m h).after_run fs
  after_step-Kept Step.await_step fs m h =
      (await_confirm-Kept law hash decode p before sound salt now m h).after_run fs
  after_step-Kept Step.confirm_step fs m h =
      (confirm-Kept law hash decode p before sound salt now m h).after_run fs
  after_step-Kept Step.rollback_step fs m h =
      ((rollback-Kept law hash decode p before sound salt now m h).after_run fs).0
  after_step-Kept (Step.restart_step r l) fs m h =
      ((recover-Kept law hash decode p before sound salt now m h r l).after_run fs).0

  run-Kept :
      (ss : List (Step × List Fault)) (m : Machine S)
      → Kept S p before (planned_journal hash p salt now before) m
      → Kept S p before (planned_journal hash p salt now before) (run hash ss m)
  unfolding run
  run-Kept [] m h = h
  run-Kept ((s, fs) ∷ ss) m h = run-Kept ss (after_step hash s m fs) (after_step-Kept s fs m h)

module _ {S : Store} (law : IsLawful S) (hash : Bytes → Bytes → Bytes)
    (decode : Bytes → Option (List Bytes)) (p : Plan) (inj : IsInjective hash)
    (options : are_options p.changes ≡ true) (fresh : Bytes) (now : ℕ) where
  -- Let the store be lawful, the hash injective, and the plan one of options. After a `Begin` that
  -- succeeds, and after any later operations, each under any faults, every key of the package has the
  -- value before `Begin`, or the one that the plan gives it.
  pub run-written :
      (m : Machine S) (fs : List Fault) (ss : List (Step × List Fault)) (k : Key)
      → (begin hash decode p fresh now m fs).0 ≡ ok tt
      → (S.read (run hash ss ((begin hash decode p fresh now m fs).1)).live p.pkg k
          ≡ S.read m.live p.pkg k)
        ⊎ (S.read (run hash ss ((begin hash decode p fresh now m fs).1)).live p.pkg k
            ≡ written p.changes k (S.read m.live p.pkg k))
  run-written m fs ss k e =
      let (s, h, f, b) =
        ((begin-Begun law hash decode p inj options fresh now m).after_run fs).1 e in
      (run-Kept law hash decode p (S.read m.live p.pkg) s fresh now ss _ h).mixed k

  -- Let the store be lawful, the hash injective, and the plan one of options. After a `Begin` that
  -- succeeds, and after any later operations, each under any faults: if a rollback, under any faults,
  -- returns an outcome in the phase rolled_back, every key of the package has its value before
  -- `Begin`, and no conflict is reported.
  pub rollback_complete :
      (m : Machine S) (fs gs : List Fault) (ss : List (Step × List Fault)) (o : Outcome) (k : Key)
      → (begin hash decode p fresh now m fs).0 ≡ ok tt
      → (rollback hash (run hash ss ((begin hash decode p fresh now m fs).1)) gs).0 ≡ ok o
      → o.phase ≡ Phase.rolled_back
      → (S.read
            ((rollback hash (run hash ss ((begin hash decode p fresh now m fs).1)) gs).1).live
            p.pkg
            k
          ≡ S.read m.live p.pkg k)
        × (o.conflicts ≡ [])
  rollback_complete m fs gs ss o k e r t =
      let (s, h, f, b) =
        ((begin-Begun law hash decode p inj options fresh now m).after_run fs).1 e in
      let n = run hash ss ((begin hash decode p fresh now m fs).1) in
      let kept = run-Kept law hash decode p (S.read m.live p.pkg) s fresh now ss _ h in
      let c =
        subst
          (λ r.
            IsComplete law hash decode p (S.read m.live p.pkg) s fresh now r
              ((rollback hash n gs).1))
          r
          (((rollback-Kept law hash decode p (S.read m.live p.pkg) s fresh now n kept).after_run
            gs).1) in
      (c.0 (ap (λ x. phase_eq x Phase.rolled_back) t) k, c.1)

  -- The same of a start of the program.
  recover_complete :
      (m : Machine S) (fs gs : List Fault) (ss : List (Step × List Fault)) (o : Outcome)
      (revision later : ℕ) (k : Key)
      → (begin hash decode p fresh now m fs).0 ≡ ok tt
      → (recover hash revision later (run hash ss ((begin hash decode p fresh now m fs).1)) gs).0
        ≡ ok (some o)
      → o.phase ≡ Phase.rolled_back
      → (S.read
            ((recover hash revision later
                (run hash ss ((begin hash decode p fresh now m fs).1))
                gs).1
              ).live
            p.pkg
            k
          ≡ S.read m.live p.pkg k)
        × (o.conflicts ≡ [])
  recover_complete m fs gs ss o revision later k e r t =
      let (s, h, f, b) =
        ((begin-Begun law hash decode p inj options fresh now m).after_run fs).1 e in
      let n = run hash ss ((begin hash decode p fresh now m fs).1) in
      let kept = run-Kept law hash decode p (S.read m.live p.pkg) s fresh now ss _ h in
      let c =
        subst
          (λ r.
            IsRecovered law hash decode p (S.read m.live p.pkg) s fresh now r
              ((recover hash revision later n gs).1))
          r
          (((recover-Kept law hash decode p (S.read m.live p.pkg) s fresh now n kept revision
              later).after_run
            gs).1) in
      (c.0 (ap (λ x. phase_eq x Phase.rolled_back) t) k, c.1)
