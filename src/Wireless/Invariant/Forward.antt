-- ===== src/Wireless/Invariant/Forward.antt =====
-- `Apply`, `AwaitConfirm` and `Confirm` of core/internal/wireless/transaction.go, and the invariant of a
-- transaction, under any faults.
use smart_srun.Prelude.{
  ℕ, ◌≡◌, refl, sym, ◌∙◌, ap, subst, inl, inr, true, Option, some, List, arith, Bytes, Bool-cases,
}
use smart_srun.Wireless.Journal.{Key, Journal, Phase}
use smart_srun.Wireless.Machine.{Value, Change, Store, IsLawful, Machine, clear, ◌>>◌, written}
use smart_srun.Wireless.Machine.Faults.{
  Ensures, bind_rule, attempt_rule, guard_rule, pure_rule, then_rule,
}
use smart_srun.Wireless.Transaction.{
  Plan, planned_journal, may_apply, apply_with, apply, await_with, await_confirm, confirm_with,
  confirm, phase_eq,
}
use smart_srun.Wireless.Transaction.Matched.{match_all-written, match_all-are_options}
use smart_srun.Wireless.Rollback.Mixed.{IsMixed}
use smart_srun.Wireless.Invariant.{
  IsSound, Kept, AtStart, at_phase, restage, published, set_phase_rule, clear_rule,
}

module _ {S : Store} (law : IsLawful S) (hash : Bytes → Bytes → Bytes)
    (decode : Bytes → Option (List Bytes)) (p : Plan) (before : Key → Value)
    (sound : IsSound hash decode p before) (salt : Bytes) (now : ℕ) where
  abbrev plan_journal : Journal
  plan_journal = planned_journal hash p salt now before

  abbrev IsKept : Machine S → Type 0
  IsKept = Kept S p before plan_journal

  -- What `Apply` accepts leaves each key as before, or as planned.
  apply-IsMixed :
      (q : Phase) (cs : List Change) (s : S.State)
      → may_apply hash (at_phase plan_journal q) cs ≡ true
      → AtStart S p before s
      → IsMixed p.changes before (S.read (S.write s p.pkg cs) p.pkg)
  apply-IsMixed q cs s g a k =
      let w =
        law.read-write s p.pkg cs k
          (match_all-are_options hash salt before sound.injective cs p.changes sound.options
            (ground (arith, g)))
          (ground (arith, g)) in
      elim (match_all-written hash salt before sound.injective cs p.changes k (S.read s p.pkg k)
        sound.distinct (ground (arith, g))) [
          | inl e ↦ inl (w ∙ e ∙ a k)
          | inr e ↦ inr (w ∙ e ∙ ap (written p.changes k) (a k))
        ]

  apply_with-Kept :
      (cs : List Change) (m : Machine S) (h : IsKept m)
      → Ensures (apply_with hash (at_phase plan_journal h.phase) cs) m (λ r n. IsKept n)
  unfolding apply_with
  apply_with-Kept cs m h =
      let r = restage cs h in
      bind_rule (
        guard_rule _
          (λ g. bind_rule (
            attempt_rule _
              (bind_rule (
                set_phase_rule Phase.applied (λ t. ground (arith, t)) r (λ n k l e. k)
                  (λ k.
                    let mem = ap (λ x. at_phase x Phase.applied) h.memory in
                    let done =
                      published Phase.applied (S.write m.live p.pkg cs) refl mem (ap some mem)
                        (apply-IsMixed h.phase cs m.live g (h.clean (ground (arith, g)))) k in
                    bind_rule (attempt_rule _ (attempt_rule _ done done done) k done))))
              h r))
          h)

  pub apply-Kept :
      (cs : List Change) (m : Machine S) → IsKept m → Ensures (apply hash cs) m (λ r n. IsKept n)
  unfolding apply
  apply-Kept cs m h =
      let e =
        subst (λ x. Ensures (apply_with hash x cs) m (λ r n. IsKept n)) (sym h.memory)
          (apply_with-Kept cs m h) in
      record { after_run = e.after_run }

  await_with-Kept :
      (m : Machine S) (h : IsKept m)
      → Ensures (await_with (at_phase plan_journal h.phase)) m (λ r n. IsKept n)
  unfolding await_with
  await_with-Kept m h = bind_rule (
      guard_rule _
        (λ g.
          set_phase_rule Phase.awaiting_confirm (λ t. ground (arith, t)) h (λ n k l e. k) (λ k. k))
        h)

  pub await_confirm-Kept : (m : Machine S) → IsKept m → Ensures await_confirm m (λ r n. IsKept n)
  unfolding await_confirm
  await_confirm-Kept m h =
      let e =
        subst (λ x. Ensures (await_with x) m (λ r n. IsKept n)) (sym h.memory)
          (await_with-Kept m h) in
      record { after_run = e.after_run }

  confirm_with-Kept :
      (m : Machine S) (h : IsKept m)
      → Ensures (confirm_with (at_phase plan_journal h.phase)) m (λ r n. IsKept n)
  unfolding confirm_with
  confirm_with-Kept m h = elim (Bool-cases (phase_eq h.phase Phase.committed)) [
    | inl t ↦ rw t (pure_rule _ h)
    | inr f ↦ rw f (
        bind_rule (
          guard_rule _
            (λ g. set_phase_rule Phase.committed (λ t. ground (arith, t)) h (λ n k l e. k) (λ k. k))
            h))
  ]

  pub confirm-Kept : (m : Machine S) → IsKept m → Ensures confirm m (λ r n. IsKept n)
  unfolding confirm
  confirm-Kept m h =
      let e =
        subst (λ x. Ensures (confirm_with x) m (λ r n. IsKept n)) (sym h.memory)
          (confirm_with-Kept m h) in
      let f : Ensures (confirm_with m.memory >> clear) m (λ r n. IsKept n) =
        then_rule e (λ a n k. clear_rule k (λ o l v x. l) (λ l. l)) (λ x n k. k) in
      record { after_run = f.after_run }
