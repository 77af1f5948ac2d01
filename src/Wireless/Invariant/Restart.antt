-- ===== src/Wireless/Invariant/Restart.antt =====
-- `Recover` of core/internal/wireless/transaction.go, and the invariant of a transaction, under any
-- faults.
use smart_srun.Prelude.{
  ℕ, ◌+◌, ◌≡◌, refl, sym, subst, inl, inr, true, ◌&&◌, ◌||◌, Option, none, some, List, [], arith,
  Bytes, Bool-cases, ltb, ◌==◌,
}
use smart_srun.Wireless.Journal.{Key, Journal, Phase, is_final}
use smart_srun.Wireless.Machine.{Value, Store, IsLawful, Machine, Result, ok, err, readable}
use smart_srun.Wireless.Machine.Faults.{
  Ensures, Then, bind_rule, then_rule, query_rule, assign_rule, pure_rule,
}
use smart_srun.Wireless.Transaction.{Plan, planned_journal, phase_eq}
use smart_srun.Wireless.Rollback.{Outcome, recover_undo, recover_from, recover_found, recover}
use smart_srun.Wireless.Invariant.{
  IsSound, Kept, AtStart, KeptFile, at_phase, is_clean, reload_memory, set_phase_rule, clear_rule,
}
use smart_srun.Wireless.Invariant.Backward.{rollback-Kept}

module _ {S : Store} (law : IsLawful S) (hash : Bytes → Bytes → Bytes)
    (decode : Bytes → Option (List Bytes)) (p : Plan) (before : Key → Value)
    (sound : IsSound hash decode p before) (salt : Bytes) (now : ℕ) where
  abbrev plan_journal : Journal
  plan_journal = planned_journal hash p salt now before

  abbrev IsKept : Machine S → Type 0
  IsKept = Kept S p before plan_journal

  -- `IsComplete`, where there may have been nothing to recover.
  abbrev pub IsRecovered : Result (Option Outcome) → Machine S → Type 0
  IsRecovered (ok none) n = Unit
  IsRecovered (ok (some o)) n =
      (phase_eq o.phase Phase.rolled_back ≡ true → AtStart S p before n.live) × (o.conflicts ≡ [])
  IsRecovered (err e) n = Unit

  abbrev pub Post : Result (Option Outcome) → Machine S → Type 0
  Post r n = IsKept n × IsRecovered r n

  recover_undo-Kept :
      (q : Phase) (m : Machine S)
      → IsKept m
      → (is_clean q ≡ true → AtStart S p before m.live)
      → (revision later : ℕ)
      → Ensures (recover_undo hash revision later (at_phase plan_journal q)) m Post
  unfolding recover_undo
  recover_undo-Kept q m h a revision later = elim (Bool-cases (p.config_revision == revision)) [
    | inr f ↦ rw f (
        bind_rule (
          assign_rule _ (
            bind_rule (
              set_phase_rule Phase.recovery_required (λ t. ground (arith, t)) (reload_memory q a h)
                (λ n k l x. (k, tt)) (λ k. pure_rule _ (k, ((λ x. ground (arith, x)), refl)))))))
    | inl t ↦
        elim (Bool-cases
          (phase_eq q Phase.awaiting_confirm && ltb later (now + p.confirm_within))) [
            | inl u ↦ rw (t, u) (pure_rule _ (h, ((λ x. a (ground (arith, x))), refl)))
            | inr g ↦
                rw (t, g)
                  (bind_rule (
                    assign_rule _ (
                      then_rule
                        (rollback-Kept law hash decode p before sound salt now _
                          (reload_memory q a h))
                        (λ o n k. pure_rule _ k) (λ x n k. (k.0, tt)))))
          ]
  ]

  recover_from-Kept :
      (q : Phase) (m : Machine S)
      → IsKept m
      → (is_clean q ≡ true → AtStart S p before m.live)
      → (revision later : ℕ)
      → Ensures (recover_from hash revision later (at_phase plan_journal q)) m Post
  unfolding recover_from
  recover_from-Kept q m h a revision later =
      elim (Bool-cases (phase_eq q Phase.recovery_required)) [
        | inl t ↦ rw t (pure_rule _ (h, ((λ x. ground (arith, x)), refl)))
        | inr f ↦ elim (Bool-cases (is_final q)) [
          | inl t ↦
              rw (f, t)
                (bind_rule (
                  clear_rule h (λ n k l x. (k, tt))
                    (λ k. pure_rule _ (k, ((λ x. a (ground (arith, x))), refl)))))
          | inr g ↦ elim (Bool-cases (phase_eq q Phase.planned || phase_eq q Phase.backed_up)) [
            | inl t ↦
                rw (f, g, t)
                  (bind_rule (
                    clear_rule h (λ n k l x. (k, tt))
                      (λ k. pure_rule _ (k, ((λ x. a (ground (arith, t))), refl)))))
            | inr i ↦ rw (f, g, i) (recover_undo-Kept q m h a revision later)
          ]
        ]
      ]

  recover_found-Kept :
      (f : Option Journal) (m : Machine S)
      → IsKept m
      → KeptFile S p before plan_journal m.live f
      → (revision later : ℕ)
      → Ensures (readable f) m (Then (recover_found hash revision later) Post)
  recover_found-Kept none m h k revision later = pure_rule _ (pure_rule _ (h, tt))
  recover_found-Kept (some j) m h (inl e) revision later = ground (arith, e)
  recover_found-Kept (some j) m h (inr (q, e, a)) revision later =
      subst (λ x. Ensures (readable x) m (Then (recover_found hash revision later) Post)) (sym e)
        (pure_rule _ (recover_from-Kept q m h a revision later))

  pub recover-Kept :
      (m : Machine S)
      → IsKept m
      → (revision later : ℕ) → Ensures (recover hash revision later) m Post
  unfolding recover
  recover-Kept m h revision later =
      bind_rule
        (bind_rule (query_rule _ (recover_found-Kept m.journal m h h.file revision later) (h, tt)))
