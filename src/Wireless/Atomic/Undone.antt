-- ===== src/Wireless/Atomic/Undone.antt =====
-- `Recover` of core/internal/wireless/transaction.go without faults, on a change that is open.
use smart_srun.Prelude.{
  ℕ, ◌+◌, ◌≡◌, refl, ◌∙◌, Bool, true, false, ◌&&◌, ◌||◌, Option, none, some, List, [], ◌∷◌, arith,
  Bytes, ltb, ==_refl,
}
use smart_srun.Wireless.Journal.{Key, Journal, Phase, is_final}
use smart_srun.Wireless.Machine.{
  Value, Change, Store, IsLawful, Machine, M, clear, set_phase, ◌>>=◌,
}
use smart_srun.Wireless.Machine.Clean.{
  Gives, bind-Gives, attempt-Gives, assign-Gives, query-Gives, pure-Gives,
}
use smart_srun.Wireless.Transaction.{Plan, planned_journal, planned_backup, entries_of, phase_eq}
use smart_srun.Wireless.Rollback.{
  Outcome, Undo, undo, publish, settle_undo, carry_out, undo_with, rollback_with, rollback,
  recover_undo, recover_from, recover,
}
use smart_srun.Wireless.Rollback.Collected.{undo-Undoes}
use smart_srun.Wireless.Rollback.Saved.{values_of-Ready}
use smart_srun.Wireless.Rollback.Mixed.{IsMixed, theirs-IsMixed}
use smart_srun.Wireless.Invariant.{IsSound, at_phase}
use smart_srun.Wireless.Invariant.Backward.{blocked_sections-options}

module _ {S : Store} where
  -- Some machine without a record is left, with an outcome that is complete.
  abbrev pub UndoesAll : M S Outcome → Machine S → Type 0
  UndoesAll c m =
      (o : Outcome) × (n : Machine S) × Gives c m o n
      × (o.phase ≡ Phase.rolled_back)
      × (n.journal ≡ none)
      × (n.backup ≡ none)

  pub set_phase-Gives :
      (q : Phase) (m : Machine S)
      → Gives
          (set_phase q)
          m
          tt
          (record m { memory = at_phase m.memory q; journal = some (at_phase m.memory q) })
  set_phase-Gives q m = bind-Gives _ tt (assign-Gives _ _) (attempt-Gives _ _)

  pub clear-Gives : (m : Machine S) → Gives clear m tt (record m { backup = none; journal = none })
  clear-Gives m = bind-Gives _ tt (attempt-Gives _ _) (attempt-Gives _ _)

  publish-Gives :
      (pkg : Bytes) (cs : List Change) (m : Machine S)
      → (n : Machine S) × Gives (publish pkg cs) m tt n
  unfolding publish
  publish-Gives pkg [] m = (m, pure-Gives tt m)
  publish-Gives pkg (c ∷ cs) m = (
    _,
    bind-Gives _ tt (attempt-Gives _ _) (bind-Gives _ tt (attempt-Gives _ _) (attempt-Gives _ _)),
  )

  settle-Gives : (u : Undo) (m : Machine S) → u.conflicts ≡ [] → UndoesAll (settle_undo u) m
  unfolding settle_undo
  settle-Gives u m e = (
    record {
      phase = Phase.rolled_back;
      restored = u.restored;
      conflicts = [];
      removed = u.removed;
      error = none;
    },
    record m { memory = at_phase m.memory Phase.rolled_back; backup = none; journal = none },
    rw e (bind-Gives _ tt (assign-Gives _ _) (bind-Gives _ tt (clear-Gives _) (pure-Gives _ _))),
    refl,
    refl,
    refl,
  )

  after_bind :
      {A : Type 0} {c : M S A} (f : A → M S Outcome) {m n : Machine S} (a : A)
      → Gives c m a n
      → UndoesAll (f a) n
      → UndoesAll (c >>= f) m
  after_bind f a h (o, n, g, r, j, b) = (o, n, bind-Gives f a h g, r, j, b)

-- The phases of a change that may have been published.
abbrev pub is_open : Phase → Bool
is_open q =
    phase_eq q Phase.applied || (phase_eq q Phase.awaiting_confirm || phase_eq q Phase.rolling_back)

pub is_final-is_open : (q : Phase) → is_open q ≡ true → is_final q ≡ false
is_final-is_open Phase.applied h = refl
is_final-is_open Phase.awaiting_confirm h = refl
is_final-is_open Phase.rolling_back h = refl
is_final-is_open Phase.planned h = refl
is_final-is_open Phase.backed_up h = refl
is_final-is_open Phase.committed h = ground (arith, h)
is_final-is_open Phase.rolled_back h = ground (arith, h)
is_final-is_open Phase.recovery_required h = ground (arith, h)

module _ {S : Store} (hash : Bytes → Bytes → Bytes) (decode : Bytes → Option (List Bytes))
    (p : Plan) (before : Key → Value) (sound : IsSound hash decode p before) (salt : Bytes)
    (now : ℕ) (law : IsLawful S) where
  abbrev plan_journal : Journal
  plan_journal = planned_journal hash p salt now before

  carry_out-Gives :
      (ph : Phase) (m n : Machine S)
      → IsMixed p.changes before (S.read m.live p.pkg)
      → UndoesAll
          (carry_out hash p.pkg (
            undo hash
              (at_phase plan_journal ph)
              (planned_backup p before)
              []
              (S.read m.live p.pkg)
              (entries_of hash salt before p.changes)))
          n
  carry_out-Gives ph m n mixed =
      let current : Key → Value = S.read m.live p.pkg in
      let (u, e, un) =
        undo-Undoes hash salt before current sound.injective sound.proper
          (law.read_absent m.live p.pkg) (at_phase plan_journal ph) (planned_backup p before) []
          p.changes refl refl
          (values_of-Ready before decode p.changes [] (planned_backup p before) sound.writable
            sound.options sound.distinct refl) in
      let (o, g) = publish-Gives p.pkg u.changes n in
      rw e (
        after_bind _ tt g (
          settle-Gives u o (
            un.conflicts ∙ theirs-IsMixed hash salt before current p.changes sound.distinct mixed)))

  undo_with-Gives :
      (ph : Phase) (m : Machine S)
      → IsMixed p.changes before (S.read m.live p.pkg)
      → UndoesAll (undo_with hash (at_phase plan_journal ph) (some (planned_backup p before))) m
  unfolding undo_with
  undo_with-Gives ph m mixed = after_bind _ _ (query-Gives _ _) (
      rw
        (blocked_sections-options {S = S} hash (at_phase plan_journal ph) salt before
          (S.read m.live p.pkg) p.changes sound.options)
        (after_bind _ _ (pure-Gives _ _) (carry_out-Gives ph m m mixed)))

  rollback-Gives :
      (q : Phase) (m : Machine S)
      → is_open q ≡ true
      → m.memory ≡ at_phase plan_journal q
      → m.backup ≡ some (planned_backup p before)
      → IsMixed p.changes before (S.read m.live p.pkg)
      → UndoesAll (rollback_with hash (at_phase plan_journal q)) m
  unfolding rollback_with
  rollback-Gives q m o em eb mixed =
      let f : is_final q ≡ false = is_final-is_open q o in
      let g : (phase_eq q Phase.planned || phase_eq q Phase.backed_up) ≡ false =
        ground (arith, o) in
      rw (f, g)
        (after_bind _ tt (set_phase-Gives _ _)
          (after_bind _ _ (query-Gives _ _) (rw eb (undo_with-Gives q _ mixed))))

  -- What a start of the program gives: an outcome, and no record.
  abbrev Recovers : M S (Option Outcome) → Machine S → Type 0
  Recovers c m =
      (o : Outcome) × (n : Machine S) × Gives c m (some o) n
      × (o.phase ≡ Phase.rolled_back)
      × (n.journal ≡ none)
      × (n.backup ≡ none)

  recover_undo-Gives :
      (q : Phase) (m : Machine S) (later : ℕ)
      → is_open q ≡ true
      → m.backup ≡ some (planned_backup p before)
      → IsMixed p.changes before (S.read m.live p.pkg)
      → (phase_eq q Phase.awaiting_confirm && ltb later (now + p.confirm_within)) ≡ false
      → Recovers (recover_undo hash p.config_revision later (at_phase plan_journal q)) m
  unfolding recover_undo rollback
  recover_undo-Gives q m later o eb mixed w =
      let (x, n, g, r, j, b) =
        rollback-Gives q (record m { memory = at_phase plan_journal q }) o refl eb mixed in
      (
        x,
        n,
        rw (==_refl p.config_revision, w)
            (bind-Gives _ tt (assign-Gives _ _)
              (bind-Gives _ x (record { clean_run = g.clean_run }) (pure-Gives _ _))),
        r,
        j,
        b,
      )

  recover_from-Gives :
      (q : Phase) (m : Machine S) (later : ℕ)
      → (is_open q || phase_eq q Phase.backed_up) ≡ true
      → m.backup ≡ some (planned_backup p before)
      → IsMixed p.changes before (S.read m.live p.pkg)
      → (phase_eq q Phase.awaiting_confirm && ltb later (now + p.confirm_within)) ≡ false
      → Recovers (recover_from hash p.config_revision later (at_phase plan_journal q)) m
  unfolding recover_from
  recover_from-Gives Phase.backed_up m later o eb mixed w =
      (_, _, bind-Gives _ tt (clear-Gives _) (pure-Gives _ _), refl, refl, refl)
  recover_from-Gives Phase.applied m later o eb mixed w =
      recover_undo-Gives Phase.applied m later o eb mixed w
  recover_from-Gives Phase.awaiting_confirm m later o eb mixed w =
      recover_undo-Gives Phase.awaiting_confirm m later o eb mixed w
  recover_from-Gives Phase.rolling_back m later o eb mixed w =
      recover_undo-Gives Phase.rolling_back m later o eb mixed w
  recover_from-Gives Phase.planned m later o eb mixed w = ground (arith, o)
  recover_from-Gives Phase.committed m later o eb mixed w = ground (arith, o)
  recover_from-Gives Phase.rolled_back m later o eb mixed w = ground (arith, o)
  recover_from-Gives Phase.recovery_required m later o eb mixed w = ground (arith, o)

  pub recover-Gives :
      (q : Phase) (m : Machine S) (later : ℕ)
      → (is_open q || phase_eq q Phase.backed_up) ≡ true
      → m.journal ≡ some (at_phase plan_journal q)
      → m.backup ≡ some (planned_backup p before)
      → IsMixed p.changes before (S.read m.live p.pkg)
      → (phase_eq q Phase.awaiting_confirm && ltb later (now + p.confirm_within)) ≡ false
      → Recovers (recover hash p.config_revision later) m
  unfolding recover
  recover-Gives q m later o ej eb mixed w =
      let (x, n, g, r, j, b) = recover_from-Gives q m later o eb mixed w in
      (
        x,
        n,
        bind-Gives _ (some (at_phase plan_journal q))
            (bind-Gives _ m.journal (query-Gives _ _) (rw ej (pure-Gives _ _))) g,
        r,
        j,
        b,
      )
