-- ===== src/Wireless/Atomic/Edited.antt =====
-- Without faults, `rollback` of core/internal/wireless/transaction.go on a live configuration that
-- others may have edited.
use smart_srun.Prelude.{
  ℕ, ◌≡◌, refl, sym, ◌∙◌, ap, inl, inr, true, false, ◌||◌, Option, none, some, List, [], ◌∷◌, arith,
  Bytes, Bool-cases, is_empty, if◌then◌else◌,
}
use smart_srun.Domain.Errors.{ErrorCode}
use smart_srun.Wireless.Journal.{Key, Journal, Phase, is_final}
use smart_srun.Wireless.Machine.{
  Value, Change, Store, IsLawful, Machine, M, ok, ◌>>=◌, written, are_distinct, are_options,
}
use smart_srun.Wireless.Machine.Clean.{
  Gives, bind-Gives, attempt-Gives, assign-Gives, query-Gives, pure-Gives,
}
use smart_srun.Wireless.Transaction.{Plan, planned_journal, planned_backup, entries_of, phase_eq}
use smart_srun.Wireless.Rollback.{
  Outcome, Undo, undo, publish, settle_undo, carry_out, undo_with, rollback_with, rollback,
}
use smart_srun.Wireless.Rollback.Collected.{Undoes, undo-Undoes, theirs, undone}
use smart_srun.Wireless.Rollback.Values.{
  edited_keys, put_back_at, theirs-edited_keys, undone-put_back_at,
}
use smart_srun.Wireless.Rollback.Saved.{values_of-Ready}
use smart_srun.Wireless.Invariant.{IsSound, at_phase}
use smart_srun.Wireless.Invariant.Backward.{blocked_sections-options}
use smart_srun.Wireless.Atomic.Undone.{is_open, is_final-is_open, set_phase-Gives, clear-Gives}

abbrev pub end_phase : List Key → Phase
end_phase conflicts = if is_empty conflicts then Phase.rolled_back else Phase.recovery_required

empty_list : {A : Type 0} (xs : List A) → is_empty xs ≡ true → xs ≡ []
empty_list [] h = refl
empty_list (x ∷ xs) h = ground (arith, h)

module _ {S : Store} where
  -- What a run without faults leaves, of the live configuration, the backup and the outcome.
  abbrev Leaves : M S Outcome → Machine S → Bytes → List Key → (Key → Value) → Type 0
  Leaves c m pkg conflicts values =
      (o : Outcome) × (n : Machine S) × Gives c m o n
      × (o.conflicts ≡ conflicts)
      × (o.phase ≡ end_phase conflicts)
      × (n.backup ≡ (if is_empty conflicts then none else m.backup))
      × ((k : Key) → S.read n.live pkg k ≡ values k)

  after-Leaves :
      {A : Type 0} {c : M S A} (f : A → M S Outcome) {m n : Machine S} {pkg : Bytes} {cs : List Key}
      {v : Key → Value} (a : A)
      → Gives c m a n
      → n.backup ≡ m.backup
      → Leaves (f a) n pkg cs v
      → Leaves (c >>= f) m pkg cs v
  after-Leaves f {cs = cs} a h e (o, n, g, x, y, b, v) =
      (o, n, bind-Gives f a h g, x, y, b ∙ ap (λ z. if is_empty cs then none else z) e, v)

  settle_undo-Leaves :
      (pkg : Bytes) (u : Undo) (m : Machine S)
      → Leaves (settle_undo u) m pkg u.conflicts (S.read m.live pkg)
  unfolding settle_undo
  settle_undo-Leaves pkg u m = elim (Bool-cases (is_empty u.conflicts)) [
    | inl t ↦ (
      record {
        phase = Phase.rolled_back;
        restored = u.restored;
        conflicts = [];
        removed = u.removed;
        error = none;
      },
      record m { memory = at_phase m.memory Phase.rolled_back; backup = none; journal = none },
      rw t (bind-Gives _ tt (assign-Gives _ _) (bind-Gives _ tt (clear-Gives _) (pure-Gives _ _))),
      sym (empty_list u.conflicts t),
      rw t,
      rw t,
      λ k. refl,
    )
    | inr f ↦ (
      record {
        phase = Phase.recovery_required;
        restored = u.restored;
        conflicts = u.conflicts;
        removed = u.removed;
        error = some ErrorCode.recovery_required;
      },
      record m {
        memory = at_phase m.memory Phase.recovery_required;
        journal = some (at_phase m.memory Phase.recovery_required);
      },
      rw f (bind-Gives _ tt (set_phase-Gives _ _) (pure-Gives _ _)),
      refl,
      rw f,
      rw f,
      λ k. refl,
    )
  ]

  publish-Leaves :
      (law : IsLawful S) (pkg : Bytes) (cs : List Change) (m : Machine S)
      → are_options cs ≡ true
      → are_distinct cs ≡ true
      → (n : Machine S) × Gives (publish pkg cs) m tt n
        × (n.backup ≡ m.backup)
        × ((k : Key) → S.read n.live pkg k ≡ written cs k (S.read m.live pkg k))
  unfolding publish written
  publish-Leaves law pkg [] m o d = (m, pure-Gives tt m, refl, λ k. refl)
  publish-Leaves law pkg (c ∷ cs) m o d = (
    _,
    bind-Gives _ tt (attempt-Gives _ _) (bind-Gives _ tt (attempt-Gives _ _) (attempt-Gives _ _)),
    refl,
    λ k. law.read-write m.live pkg (c ∷ cs) k o d,
  )

module _ {S : Store} (law : IsLawful S) (hash : Bytes → Bytes → Bytes)
    (decode : Bytes → Option (List Bytes)) (p : Plan) (before : Key → Value) (salt : Bytes)
    (now : ℕ) (sound : IsSound hash decode p before) where
  abbrev plan_journal : Journal
  plan_journal = planned_journal hash p salt now before

  collected-Leaves :
      (u : Undo) (m : Machine S)
      → Undoes hash salt before (S.read m.live p.pkg) p.changes u
      → Leaves
          (publish p.pkg u.changes >>= λ _. settle_undo u)
          m
          p.pkg
          (theirs hash salt before (S.read m.live p.pkg) p.changes)
          (undone hash salt before (S.read m.live p.pkg) p.changes)
  collected-Leaves u m un =
      let (n, g, b, v) = publish-Leaves law p.pkg u.changes m un.options un.distinct in
      let (o, l, h, c, e, d, w) = settle_undo-Leaves p.pkg u n in
      (
        o,
        l,
        bind-Gives _ tt g h,
        c ∙ un.conflicts,
        e ∙ ap end_phase un.conflicts,
        d
            ∙ ap (λ x. if is_empty x then none else n.backup) un.conflicts
            ∙ ap
                (λ z.
                  if is_empty (theirs hash salt before (S.read m.live p.pkg) p.changes)
                  then none
                  else z)
                b,
        λ k. w k ∙ v k ∙ un.values k,
      )

  carry_out-Leaves :
      (q : Phase) (m : Machine S)
      → Leaves
          (carry_out hash p.pkg (
            undo hash
              (at_phase plan_journal q)
              (planned_backup p before)
              []
              (S.read m.live p.pkg)
              (entries_of hash salt before p.changes)))
          m
          p.pkg
          (theirs hash salt before (S.read m.live p.pkg) p.changes)
          (undone hash salt before (S.read m.live p.pkg) p.changes)
  carry_out-Leaves q m =
      let (u, e, un) =
        undo-Undoes hash salt before (S.read m.live p.pkg) sound.injective sound.proper
          (law.read_absent m.live p.pkg) (at_phase plan_journal q) (planned_backup p before) []
          p.changes refl refl
          (values_of-Ready before decode p.changes [] (planned_backup p before) sound.writable
            sound.options sound.distinct refl) in
      rw e (collected-Leaves u m un)

  rollback-Leaves :
      (q : Phase) (m : Machine S)
      → is_open q ≡ true
      → m.backup ≡ some (planned_backup p before)
      → Leaves
          (rollback_with hash (at_phase plan_journal q))
          m
          p.pkg
          (theirs hash salt before (S.read m.live p.pkg) p.changes)
          (undone hash salt before (S.read m.live p.pkg) p.changes)
  unfolding rollback_with undo_with
  rollback-Leaves q m o eb =
      let f : is_final q ≡ false = is_final-is_open q o in
      let g : (phase_eq q Phase.planned || phase_eq q Phase.backed_up) ≡ false =
        ground (arith, o) in
      rw (f, g)
        (after-Leaves _ tt (set_phase-Gives _ _) refl (
          after-Leaves _ _ (query-Gives _ _) refl (
            rw eb (
              after-Leaves _ _ (query-Gives _ _) refl (
                rw
                  (blocked_sections-options {S = S} hash (at_phase plan_journal q) salt before
                    (S.read m.live p.pkg) p.changes sound.options)
                  (after-Leaves _ _ (pure-Gives _ _) refl (carry_out-Leaves q _)))))))

-- Let the store be lawful, the plan one of distinct options that passes the checks of `Begin`, and the
-- hash injective. A rollback without faults of a change in an open phase, whose journal and backup
-- are those of `Begin`, on any live configuration, returns an outcome: an option of the plan whose value
-- equals the one that the plan gives it, or the one before, gets the one before, and every other key
-- stays as it is found; the conflicts are the options of the plan whose value equals neither; the
-- phase is rolled_back where there are none and recovery_required where there are some; and the backup
-- goes where there are none, and is kept where there are some.
pub rollback-undone :
    {S : Store} (law : IsLawful S) (hash : Bytes → Bytes → Bytes)
    (decode : Bytes → Option (List Bytes)) (p : Plan) (before : Key → Value) (salt : Bytes)
    (now : ℕ) (q : Phase) (m : Machine S) (k : Key)
    → IsSound hash decode p before
    → is_open q ≡ true
    → m.memory ≡ at_phase (planned_journal hash p salt now before) q
    → m.backup ≡ some (planned_backup p before)
    → let found = S.read m.live p.pkg in
      let conflicts = edited_keys before found p.changes in
      ((o : Outcome) × ((rollback hash m []).0 ≡ ok o)
        × (o.conflicts ≡ conflicts)
        × (o.phase ≡ end_phase conflicts))
      × (S.read ((rollback hash m []).1).live p.pkg k ≡ put_back_at before found p.changes k)
      × (((rollback hash m []).1).backup ≡ (if is_empty conflicts then none else m.backup))
unfolding rollback
rollback-undone {S} law hash decode p before salt now q m k sound o em eb =
    let (x, n, g, c, e, b, v) = rollback-Leaves law hash decode p before salt now sound q m o eb in
    let t = ap (λ j. rollback_with hash j m []) em ∙ g.clean_run in
    let found = S.read m.live p.pkg in
    let proper = law.read_absent m.live p.pkg in
    let keys =
      theirs-edited_keys before found hash salt sound.injective sound.proper proper p.changes in
    let put =
      undone-put_back_at before found hash salt sound.injective sound.proper proper p.changes k in
    (
      (x, ap (λ r. r.0) t, c ∙ keys, e ∙ ap end_phase keys),
      ap (λ r. S.read (r.1).live p.pkg k) t ∙ v k ∙ put,
      ap (λ r. (r.1).backup) t ∙ b ∙ ap (λ cs. if is_empty cs then none else m.backup) keys,
    )
