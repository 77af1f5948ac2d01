-- ===== src/Wireless/Atomic/Lost.antt =====
-- core/internal/wireless/transaction.go: `Confirm` under faults, and the record of a change that is
-- open and whose backup is gone.
use smart_srun.Prelude.{
  ℕ, ◌≡◌, refl, ◌∙◌, ap, true, false, ◌&&◌, ◌||◌, none, some, List, [], ◌∷◌, arith, Bytes, ltb,
  ◌==◌, ==_refl,
}
use smart_srun.Domain.Errors.{ErrorCode}
use smart_srun.Wireless.Journal.{Journal, Phase, is_final, journal_version}
use smart_srun.Wireless.Machine.{
  Store, Machine, M, Run, Result, ok, err, Fault, failed, clear, pure, attempt, assign, guard, ◌>>◌,
  ◌>>=◌,
}
use smart_srun.Wireless.Machine.Faults.{
  Ensures, Then, bind_rule, weaken_rule, attempt_rule, assign_rule, guard_rule,
}
use smart_srun.Wireless.Machine.Clean.{Gives, bind-Gives, assign-Gives, query-Gives, pure-Gives}
use smart_srun.Wireless.Transaction.{phase_eq, confirm, confirm_with}
use smart_srun.Wireless.Rollback.{
  Outcome, plain, ignore, undo_with, rollback_with, rollback, recover_undo, recover_from, recover,
}
use smart_srun.Wireless.Invariant.{at_phase}
use smart_srun.Wireless.Atomic.Undone.{is_open, is_final-is_open, set_phase-Gives}

-- The record after a confirmation: untouched, or not one that a start of the program undoes.
pub data IsSettled {S : Store} (m n : Machine S) : Type 0 where
  untouched : n.journal ≡ m.journal → n.backup ≡ m.backup → IsSettled m n
  final : n.journal ≡ some (at_phase m.memory Phase.committed) → IsSettled m n
  cleared : n.journal ≡ none → n.backup ≡ none → IsSettled m n

abbrev lost : Outcome
lost = plain Phase.recovery_required (some ErrorCode.recovery_required)

module _ {S : Store} where
  abbrev Settles : Machine S → Result (Unit {0}) → Machine S → Type 0
  Settles m r n = (n.live ≡ m.live) × IsSettled m n

  clear-Settles :
      (m : Machine S) (r : Result (Unit {0})) (n : Machine S)
      → Settles m r n × ((r ≡ ok tt) → n.journal ≡ some (at_phase m.memory Phase.committed))
      → Then (λ _. clear) (Settles m) r n
  clear-Settles m (err e) n (h, k) = h
  clear-Settles m (ok tt) n ((l, h), k) = bind_rule (
      attempt_rule _
        (attempt_rule _ (l, IsSettled.cleared refl refl) (l, IsSettled.final (k refl))
          (l, IsSettled.cleared refl refl))
        (l, h) (l, IsSettled.final (k refl)))

  -- A confirmation of a change that is applied or awaits it, under any faults, leaves the live
  -- configuration; and the two files are as they were, or the journal says committed, or both are
  -- gone: never is the backup gone and the change still to be undone.
  pub confirm-IsSettled :
      (m : Machine S) (fs : List Fault)
      → phase_eq m.memory.phase Phase.committed ≡ false
      → (((confirm m fs).1).live ≡ m.live) × IsSettled m ((confirm m fs).1)
  unfolding confirm confirm_with
  confirm-IsSettled m fs f =
      let e : Ensures (confirm_with m.memory) m (λ r n.
        Settles m r n × ((r ≡ ok tt) → n.journal ≡ some (at_phase m.memory Phase.committed))) =
        rw f (
          bind_rule (
            guard_rule _
              (λ g. bind_rule (
                assign_rule _ (
                  attempt_rule _ ((refl, IsSettled.final refl), λ x. refl)
                    ((refl, IsSettled.untouched refl refl), λ x. ground (arith, x))
                    ((refl, IsSettled.final refl), λ x. ground (arith, x)))))
              ((refl, IsSettled.untouched refl refl), λ x. ground (arith, x)))) in
      let c : Ensures (confirm_with m.memory >> clear) m (Settles m) =
        bind_rule (weaken_rule e (λ r n h. clear-Settles m r n h)) in
      c.after_run fs

  ignore-Gives : {c : M S (Unit {0})} {m n : Machine S} → Gives c m tt n → Gives (ignore c) m tt n
  ignore-Gives h = record { clean_run = ap (λ r. (ok tt, r.1, r.2)) h.clean_run }

  abbrev left : Journal → Machine S → Machine S
  left j m = record m {
    memory = at_phase j Phase.recovery_required;
    journal = some (at_phase j Phase.recovery_required);
  }

  rollback_lost :
      (hash : Bytes → Bytes → Bytes) (m : Machine S) (j : Journal)
      → m.backup ≡ none
      → is_open j.phase ≡ true
      → Gives (rollback_with hash j) (record m { memory = j }) lost (left j m)
  unfolding rollback_with undo_with
  rollback_lost hash m j eb o =
      let f : is_final j.phase ≡ false = is_final-is_open j.phase o in
      let g : (phase_eq j.phase Phase.planned || phase_eq j.phase Phase.backed_up) ≡ false =
        ground (arith, o) in
      rw (f, g)
        (bind-Gives _ tt (set_phase-Gives _ _) (
          bind-Gives _ m.backup (query-Gives _ _)
            (rw eb (bind-Gives _ tt (ignore-Gives (set_phase-Gives _ _)) (pure-Gives _ _)))))

  recover_lost :
      (hash : Bytes → Bytes → Bytes) (m : Machine S) (j : Journal) (later : ℕ)
      → m.backup ≡ none
      → is_open j.phase ≡ true
      → (phase_eq j.phase Phase.awaiting_confirm && ltb later j.expires_at) ≡ false
      → Gives (recover_from hash j.config_revision later j) m (some lost) (left j m)
  unfolding recover_from recover_undo rollback
  recover_lost hash m j later eb o w =
      let f : is_final j.phase ≡ false = is_final-is_open j.phase o in
      let g : (phase_eq j.phase Phase.planned || phase_eq j.phase Phase.backed_up) ≡ false =
        ground (arith, o) in
      let r : phase_eq j.phase Phase.recovery_required ≡ false = ground (arith, o) in
      rw (r, f, g, ==_refl j.config_revision, w)
        (bind-Gives _ tt (assign-Gives _ _) (
          bind-Gives _ lost (record { clean_run = (rollback_lost hash m j eb o).clean_run })
            (pure-Gives _ _)))

  -- A journal of an open phase whose backup is gone: a start of the program without faults, at the
  -- revision of the journal and not while its confirmation is awaited, asks for a person, whatever
  -- the live configuration is, leaves it, and records that.
  pub recover-lost_backup :
      (hash : Bytes → Bytes → Bytes) (m : Machine S) (j : Journal) (later : ℕ)
      → m.journal ≡ some j
      → m.backup ≡ none
      → j.version ≡ journal_version
      → is_open j.phase ≡ true
      → (phase_eq j.phase Phase.awaiting_confirm && ltb later j.expires_at) ≡ false
      → ((recover hash j.config_revision later m []).0
          ≡ ok (some (plain Phase.recovery_required (some ErrorCode.recovery_required))))
        × (((recover hash j.config_revision later m []).1).live ≡ m.live)
        × (((recover hash j.config_revision later m []).1).journal
            ≡ some (at_phase j Phase.recovery_required))
  unfolding recover
  recover-lost_backup hash m j later ej eb ev o w =
      let v : (j.version == journal_version || j.version == 1) ≡ true = ground (arith, ev) in
      let r : Gives (recover hash j.config_revision later) m (some lost) (left j m) =
        bind-Gives _ (some j)
          (bind-Gives _ m.journal (query-Gives _ _) (rw (ej, v) (pure-Gives _ _)))
          (recover_lost hash m j later eb o w) in
      (
        ap (λ x. x.0) r.clean_run,
        ap (λ x. (x.1).live) r.clean_run,
        ap (λ x. (x.1).journal) r.clean_run,
      )

  confirm_failing :
      (m : Machine S)
      → (phase_eq m.memory.phase Phase.applied || phase_eq m.memory.phase Phase.awaiting_confirm)
        ≡ true
      → ◌≡◌ {A = Run S (Unit {0})}
          (confirm m (Fault.fails ∷ []))
          (err failed, record m { memory = at_phase m.memory Phase.committed }, [])
  unfolding confirm confirm_with ◌>>=◌ guard assign attempt
  confirm_failing m h =
      let f : phase_eq m.memory.phase Phase.committed ≡ false = ground (arith, h) in rw (f, h) refl

  confirm_again :
      (m : Machine S)
      → confirm
          (record m { memory = at_phase m.memory Phase.committed })
          (Fault.passes ∷ Fault.fails ∷ [])
        ≡ (err failed, record m { memory = at_phase m.memory Phase.committed; backup = none }, [])
  unfolding confirm confirm_with ◌>>=◌ pure attempt
  confirm_again m = refl

  -- A confirmation whose first save fails, and that is tried again, loses the backup while the journal
  -- is still the one of the open change, if the removal of the journal then fails.
  pub confirm-retried :
      (m : Machine S)
      → (phase_eq m.memory.phase Phase.applied || phase_eq m.memory.phase Phase.awaiting_confirm)
        ≡ true
      → let first = (confirm m (Fault.fails ∷ [])).1 in
        let again = (confirm first (Fault.passes ∷ Fault.fails ∷ [])).1 in
        ((confirm m (Fault.fails ∷ [])).0 ≡ err failed)
        × (again.journal ≡ m.journal)
        × (again.backup ≡ none)
  confirm-retried m h =
      let f = confirm_failing m h in
      let g : ◌≡◌ {A = Run S (Unit {0})}
          (confirm ((confirm m (Fault.fails ∷ [])).1) (Fault.passes ∷ Fault.fails ∷ []))
          (err failed, record m { memory = at_phase m.memory Phase.committed; backup = none }, []) =
        ap (λ r. confirm (r.1) (Fault.passes ∷ Fault.fails ∷ [])) f ∙ confirm_again m in
      (ap (λ r. r.0) f, ap (λ r. (r.1).journal) g, ap (λ r. (r.1).backup) g)
