-- ===== src/Wireless/Invariant/Backward.antt =====
-- `rollback` of core/internal/wireless/transaction.go, and the invariant of a transaction, under any
-- faults.
use smart_srun.Prelude.{
  ℕ, ◌≡◌, refl, sym, ◌∙◌, ap, subst, ◌⊎◌, inl, inr, true, false, ◌||◌, Option, none, some, List, [],
  ◌∷◌, arith, Bytes, Bool-cases, is_empty,
}
use smart_srun.Wireless.Journal.{Key, Journal, Phase, Backup, is_final, is_section}
use smart_srun.Wireless.Machine.{
  Value, Change, Store, IsLawful, Machine, M, Result, ok, err, pure, written, are_distinct,
  are_options,
}
use smart_srun.Wireless.Machine.Faults.{
  Ensures, bind_rule, then_rule, attempt_rule, query_rule, assign_rule, pure_rule,
}
use smart_srun.Wireless.Transaction.{
  Plan, planned_journal, planned_backup, entry_of, entries_of, phase_eq,
}
use smart_srun.Wireless.Rollback.{
  Outcome, Undo, undo, blocked_sections, publish, settle_undo, carry_out, ignore, undo_with,
  rollback_with, rollback,
}
use smart_srun.Wireless.Rollback.Collected.{undo-Undoes}
use smart_srun.Wireless.Rollback.Saved.{values_of-Ready}
use smart_srun.Wireless.Rollback.Mixed.{theirs-IsMixed, undone-IsMixed}
use smart_srun.Wireless.Invariant.{
  IsSound, Kept, AtStart, at_phase, rephase, restage, published, set_phase_rule, clear_rule,
}

module _ {S : Store} where
  ignore_rule :
      {c : M S (Unit {0})} {m : Machine S} {Q : Result (Unit {0}) → Machine S → Type 0}
      → Ensures c m (λ r n. Q (ok tt) n)
      → Ensures (ignore c) m Q
  ignore_rule h = record { after_run = h.after_run }

  -- A plan of options blocks no section.
  pub blocked_sections-options :
      (hash : Bytes → Bytes → Bytes) (j : Journal) (salt : Bytes) (before current : Key → Value)
      (cs : List Change)
      → are_options cs ≡ true
      → blocked_sections hash {S = S} j current (entries_of hash salt before cs) ≡ pure []
  unfolding blocked_sections entry_of
  blocked_sections-options hash j salt before current [] o = refl
  blocked_sections-options hash j salt before current (c ∷ cs) o =
      let so : is_section c.key ≡ false = ground (arith, o) in
      rw so (blocked_sections-options hash j salt before current cs (ground (arith, o)))

module _ {S : Store} (law : IsLawful S) (hash : Bytes → Bytes → Bytes)
    (decode : Bytes → Option (List Bytes)) (p : Plan) (before : Key → Value)
    (sound : IsSound hash decode p before) (salt : Bytes) (now : ℕ) where
  abbrev plan_journal : Journal
  plan_journal = planned_journal hash p salt now before

  abbrev IsKept : Machine S → Type 0
  IsKept = Kept S p before plan_journal

  -- A complete rollback has restored every key, and nothing is found that somebody else changed.
  abbrev pub IsComplete : Result Outcome → Machine S → Type 0
  IsComplete (ok o) n =
      (phase_eq o.phase Phase.rolled_back ≡ true → AtStart S p before n.live) × (o.conflicts ≡ [])
  IsComplete (err e) n = Unit

  publish-Kept :
      (cs : List Change) (m : Machine S)
      → IsKept m
      → m.memory ≡ at_phase plan_journal Phase.rolling_back
      → m.journal ≡ some (at_phase plan_journal Phase.rolling_back)
      → are_options cs ≡ true
      → are_distinct cs ≡ true
      → ((k : Key) → written cs k (S.read m.live p.pkg k) ≡ before k)
      → Ensures (publish p.pkg cs) m (λ r n. IsKept n × ((r ≡ ok tt) → AtStart S p before n.live))
  unfolding publish written
  publish-Kept [] m h em ej o d v = pure_rule _ (h, λ e. v)
  publish-Kept (c ∷ cs) m h em ej o d v =
      let w : AtStart S p before (S.write m.live p.pkg (c ∷ cs)) =
        λ k. law.read-write m.live p.pkg (c ∷ cs) k o d ∙ v k in
      let done =
        published Phase.rolling_back (S.write m.live p.pkg (c ∷ cs)) refl em ej (λ k. inl (w k))
          (restage (c ∷ cs) h) in
      bind_rule (
        attempt_rule _
          (bind_rule (
            attempt_rule _ (attempt_rule _ (done, λ e. w) (done, λ e. w) (done, λ e. w))
              (restage (c ∷ cs) h, λ e. ground (arith, e)) (done, λ e. w)))
          (h, λ e. ground (arith, e)) (restage (c ∷ cs) h, λ e. ground (arith, e)))

  settle_undo-Kept :
      (u : Undo) (m : Machine S)
      → IsKept m
      → AtStart S p before m.live
      → u.conflicts ≡ []
      → Ensures (settle_undo u) m (λ r n. IsKept n × IsComplete r n)
  unfolding settle_undo
  settle_undo-Kept u m h a e = rw (ap is_empty e) (
      bind_rule (
        assign_rule _ (
          bind_rule (
            clear_rule (rephase Phase.rolled_back (λ t. a) h) (λ n k l x. (k, tt))
              (λ k. pure_rule _ (k, (λ t. a, refl)))))))

  carry_out-Kept :
      (b : Backup) (m : Machine S) (h : IsKept m)
      → b ≡ planned_backup p before
      → m.memory ≡ at_phase plan_journal Phase.rolling_back
      → m.journal ≡ some (at_phase plan_journal Phase.rolling_back)
      → (ph : Phase)
      → Ensures
          (carry_out hash p.pkg (
            undo hash
              (at_phase plan_journal ph)
              b
              []
              (S.read m.live p.pkg)
              (entries_of hash salt before p.changes)))
          m
          (λ r n. IsKept n × IsComplete r n)
  carry_out-Kept b m h eb em ej ph =
      let current : Key → Value = S.read m.live p.pkg in
      let (u, e, un) =
        undo-Undoes hash salt before current sound.injective sound.proper
          (law.read_absent m.live p.pkg) (at_phase plan_journal ph) b [] p.changes
          (ap (λ x. x.task_id) eb) refl
          (values_of-Ready before decode p.changes [] b sound.writable sound.options sound.distinct
            (ap (λ x. x.values) eb)) in
      rw e (
        then_rule
          (publish-Kept u.changes m h em ej un.options un.distinct (λ k.
            un.values k
            ∙ undone-IsMixed hash salt before current p.changes k sound.distinct h.mixed))
          (λ a n k. settle_undo-Kept u n (k.0) (k.1 refl) (
            un.conflicts
            ∙ theirs-IsMixed hash salt before current p.changes sound.distinct h.mixed))
          (λ x n k. (k.0, tt)))

  undo_with-Kept :
      (ph : Phase) (o : Option Backup) (m : Machine S) (h : IsKept m)
      → (o ≡ none) ⊎ (o ≡ some (planned_backup p before))
      → m.memory ≡ at_phase plan_journal Phase.rolling_back
      → m.journal ≡ some (at_phase plan_journal Phase.rolling_back)
      → Ensures (undo_with hash (at_phase plan_journal ph) o) m (λ r n. IsKept n × IsComplete r n)
  unfolding undo_with
  undo_with-Kept ph none m h eo em ej = bind_rule (
      ignore_rule (
        set_phase_rule Phase.recovery_required (λ t. ground (arith, t)) h
          (λ n k l x. pure_rule _ (k, (λ t. ground (arith, t), refl)))
          (λ k. pure_rule _ (k, (λ t. ground (arith, t), refl)))))
  undo_with-Kept ph (some b) m h (inl e) em ej = ground (arith, e)
  undo_with-Kept ph (some b) m h (inr e) em ej = bind_rule (
      query_rule _
        (rw
          (blocked_sections-options {S = S} hash (at_phase plan_journal ph) salt before
            (S.read m.live p.pkg) p.changes sound.options)
          (bind_rule (pure_rule _ (carry_out-Kept b m h (ground (arith, e)) em ej ph))))
        (h, tt))

  rollback_with-Kept :
      (m : Machine S) (h : IsKept m)
      → Ensures
          (rollback_with hash (at_phase plan_journal h.phase))
          m
          (λ r n. IsKept n × IsComplete r n)
  unfolding rollback_with
  rollback_with-Kept m h = elim (Bool-cases (is_final h.phase)) [
    | inl t ↦ rw t (pure_rule _ (h, (λ t. h.clean (ground (arith, t)), refl)))
    | inr f ↦
        elim (Bool-cases (phase_eq h.phase Phase.planned || phase_eq h.phase Phase.backed_up)) [
          | inl t ↦
              let a : AtStart S p before m.live = h.clean (ground (arith, t)) in
              rw (f, t)
                (bind_rule (
                  assign_rule _ (
                    bind_rule (
                      clear_rule (rephase Phase.rolled_back (λ x. a) h) (λ n k l x. (k, tt))
                        (λ k. pure_rule _ (k, (λ x. a, refl)))))))
          | inr g ↦
              let mem = ap (λ x. at_phase x Phase.rolling_back) h.memory in
              rw (f, g)
                (bind_rule (
                  set_phase_rule Phase.rolling_back (λ t. ground (arith, t)) h (λ n k l x. (k, tt))
                    (λ k. bind_rule (
                      query_rule _ (undo_with-Kept h.phase m.backup _ k h.saved mem (ap some mem))
                        (k, tt)))))
        ]
  ]

  pub rollback-Kept :
      (m : Machine S) → IsKept m → Ensures (rollback hash) m (λ r n. IsKept n × IsComplete r n)
  unfolding rollback
  rollback-Kept m h =
      let e =
        subst (λ x. Ensures (rollback_with hash x) m (λ r n. IsKept n × IsComplete r n))
          (sym h.memory) (rollback_with-Kept m h) in
      record { after_run = e.after_run }
