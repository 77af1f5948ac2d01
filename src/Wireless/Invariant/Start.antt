-- ===== src/Wireless/Invariant/Start.antt =====
-- `Begin` of core/internal/wireless/transaction.go, under any faults.
use smart_srun.Prelude.{
  ℕ, ◌≡◌, refl, sym, subst, inl, inr, Bool, true, false, ◌||◌, Option, none, some, List, arith,
  Bytes, Bool-cases, ◌==◌,
}
use smart_srun.Wireless.Journal.{Journal, Phase}
use smart_srun.Wireless.Machine.{
  Store, IsLawful, Machine, M, Result, ok, err, Error, failed, Fault, readable, ◌>>=◌, are_options,
  are_distinct,
}
use smart_srun.Wireless.Machine.Faults.{
  Ensures, Then, bind_rule, attempt_rule, query_rule, assign_rule, guard_rule, pure_rule,
  throw_rule,
}
use smart_srun.Wireless.Check.{check_writable}
use smart_srun.Wireless.Transaction.{
  Plan, planned_journal, planned_backup, check_plan, leftover, record_plan, read_plan, begin,
  phase_eq,
}
use smart_srun.Wireless.Rollback.Entries.{IsInjective}
use smart_srun.Wireless.Invariant.{IsSound, Kept, at_phase}

module _ {S : Store} where
  readable_rule :
      (f : Option Journal) {m : Machine S} {Q : Result (Option Journal) → Machine S → Type 0}
      → ((g : Option Journal) → Q (ok g) m)
      → ((e : Error) → Q (err e) m)
      → Ensures (readable f) m Q
  readable_rule none a b = pure_rule _ (a none)
  readable_rule (some j) a b = elim (Bool-cases (j.version == 2 || j.version == 1)) [
    | inl t ↦ rw t (pure_rule _ (a (some j)))
    | inr f ↦ rw f (throw_rule _ (b _))
  ]

  leftover_rule :
      (f : Option Journal) {m : Machine S} {Q : Result (Unit {0}) → Machine S → Type 0}
      → ((r : Result (Unit {0})) (n : Machine S) → n.live ≡ m.live → Q r n)
      → Ensures (leftover f) m Q
  unfolding leftover
  leftover_rule none a = pure_rule _ (a _ _ refl)
  leftover_rule (some j) a =
      elim (Bool-cases (phase_eq j.phase Phase.committed || phase_eq j.phase Phase.rolled_back)) [
        | inl t ↦ rw t (
            bind_rule (
              attempt_rule _ (attempt_rule _ (a _ _ refl) (a _ _ refl) (a _ _ refl)) (a _ _ refl)
                (a _ _ refl)))
        | inr f ↦ elim (Bool-cases (phase_eq j.phase Phase.recovery_required)) [
          | inl t ↦ rw (f, t) (throw_rule _ (a _ _ refl))
          | inr g ↦ rw (f, g) (throw_rule _ (a _ _ refl))
        ]
      ]

module _ {S : Store} (law : IsLawful S) (hash : Bytes → Bytes → Bytes)
    (decode : Bytes → Option (List Bytes)) (p : Plan) (inj : IsInjective hash)
    (options : are_options p.changes ≡ true) (fresh : Bytes) (now : ℕ) where
  -- What a run of `Begin` leaves, from a live configuration: the same one, and the invariant where it
  -- succeeds.
  abbrev pub Begun : S.State → Result (Unit {0}) → Machine S → Type 0
  Begun s r n =
      (n.live ≡ s)
      × ((r ≡ ok tt)
          → IsSound hash decode p (S.read s p.pkg)
            × Kept S p (S.read s p.pkg) (planned_journal hash p fresh now (S.read s p.pkg)) n
            × (n.journal
                ≡ some
                    (at_phase (planned_journal hash p fresh now (S.read s p.pkg)) Phase.backed_up))
            × (n.backup ≡ some (planned_backup p (S.read s p.pkg))))

  failure : (s : S.State) (e : Error) (n : Machine S) → n.live ≡ s → Begun s (err e) n
  failure s e n l = (l, λ x. ground (arith, x))

  record_plan-Begun :
      (m : Machine S)
      → check_writable decode p.changes ≡ true
      → are_distinct p.changes ≡ true
      → Ensures (record_plan hash p fresh now (S.read m.live p.pkg)) m (Begun m.live)
  unfolding record_plan
  record_plan-Begun m w d =
      let fail = λ (e : Error) (n : Machine S) (l : n.live ≡ m.live). failure m.live e n l in
      bind_rule (
        guard_rule _
          (λ g. bind_rule (
            assign_rule _ (
              bind_rule (
                attempt_rule _
                  (bind_rule (
                    assign_rule _ (
                      attempt_rule _
                        (
                          refl,
                          λ e. (
                            record {
                              injective = inj;
                              options = options;
                              distinct = d;
                              writable = w;
                              proper = law.read_absent m.live p.pkg;
                            },
                            record {
                              phase = Phase.backed_up;
                              memory = refl;
                              clean = λ t k. refl;
                              file = inr (Phase.backed_up, refl, λ t k. refl);
                              saved = inr refl;
                              mixed = λ k. inl refl;
                            },
                            refl,
                            refl,
                          ),
                        )
                        (fail _ _ refl) (fail _ _ refl))))
                  (fail _ _ refl) (fail _ _ refl)))))
          (fail _ _ refl))

  read_plan-Begun :
      (m : Machine S)
      → check_writable decode p.changes ≡ true
      → are_distinct p.changes ≡ true
      → Ensures (read_plan hash p fresh now) m (Begun m.live)
  unfolding read_plan
  read_plan-Begun m w d = bind_rule (
      query_rule _
        (bind_rule (
          guard_rule _
            (λ g. bind_rule (
              query_rule _
                (bind_rule (query_rule _ (record_plan-Begun m w d) (failure m.live _ _ refl)))
                (failure m.live _ _ refl)))
            (failure m.live _ _ refl)))
        (failure m.live _ _ refl))

  pub begin-Begun : (m : Machine S) → Ensures (begin hash decode p fresh now) m (Begun m.live)
  unfolding begin check_plan
  begin-Begun m =
      let fail = λ (e : Error). failure m.live e m refl in
      bind_rule (
        bind_rule (
          guard_rule _
            (λ a. bind_rule (
              guard_rule _
                (λ b. bind_rule (
                  guard_rule _
                    (λ c. bind_rule (
                      guard_rule _
                        (λ w.
                          guard_rule _
                            (λ d. bind_rule (
                              bind_rule (
                                query_rule _
                                  (readable_rule m.journal
                                    (λ g. bind_rule (leftover_rule g (λ r n l. rest w d r n l)))
                                    fail)
                                  (fail _))))
                            (fail _))
                        (fail _)))
                    (fail _)))
                (fail _)))
            (fail _)))
    where
      rest :
          check_writable decode p.changes ≡ true
          → are_distinct p.changes ≡ true
          → (r : Result (Unit {0})) (n : Machine S) → n.live ≡ m.live
          → Then (λ _. read_plan hash p fresh now) (Begun m.live) r n
      rest w d (err e) n l = failure m.live e n l
      rest w d (ok tt) n l =
          subst (λ s. Ensures (read_plan hash p fresh now) n (Begun s)) l (read_plan-Begun n w d)

abbrev pub is_ok : {A : Type 0} → Result A → Bool
is_ok (ok a) = true
is_ok (err e) = false

module _ {S : Store} where
  -- Nothing is touched, and nothing is begun.
  abbrev Refuses : Machine S → Result (Unit {0}) → Machine S → Type 0
  Refuses m r n =
      (is_ok r ≡ false) × (n.live ≡ m.live) × (n.journal ≡ m.journal) × (n.backup ≡ m.backup)

  leftover-Refuses :
      (j : Journal) (m : Machine S) (c : M S (Unit {0}))
      → (phase_eq j.phase Phase.committed || phase_eq j.phase Phase.rolled_back) ≡ false
      → Ensures (leftover (some j) >>= λ _. c) m (Refuses m)
  unfolding leftover
  leftover-Refuses j m c e = elim (Bool-cases (phase_eq j.phase Phase.recovery_required)) [
    | inl t ↦ rw (e, t) (bind_rule (throw_rule _ (refl, refl, refl, refl)))
    | inr g ↦ rw (e, g) (bind_rule (throw_rule _ (refl, refl, refl, refl)))
  ]

  readable-Refuses :
      (j : Journal) (m : Machine S) (c : M S (Unit {0}))
      → (phase_eq j.phase Phase.committed || phase_eq j.phase Phase.rolled_back) ≡ false
      → Ensures (readable (some j)) m (Then (λ g. leftover g >>= λ _. c) (Refuses m))
  readable-Refuses j m c e = elim (Bool-cases (j.version == 2 || j.version == 1)) [
    | inl t ↦ rw t (pure_rule _ (leftover-Refuses j m c e))
    | inr f ↦ rw f (throw_rule _ (refl, refl, refl, refl))
  ]

  begin-Refuses :
      (hash : Bytes → Bytes → Bytes) (decode : Bytes → Option (List Bytes)) (p : Plan)
      (fresh : Bytes) (now : ℕ) (m : Machine S) (j : Journal)
      → m.journal ≡ some j
      → (phase_eq j.phase Phase.committed || phase_eq j.phase Phase.rolled_back) ≡ false
      → Ensures (begin hash decode p fresh now) m (Refuses m)
  unfolding begin check_plan
  begin-Refuses hash decode p fresh now m j ej e =
      let no : Refuses m (err failed) m = (refl, refl, refl, refl) in
      let r : Ensures (readable m.journal) m
          (Then (λ g. leftover g >>= λ _. read_plan hash p fresh now) (Refuses m)) =
        subst
          (λ x.
            Ensures (readable x) m
              (Then (λ g. leftover g >>= λ _. read_plan hash p fresh now) (Refuses m)))
          (sym ej) (readable-Refuses j m (read_plan hash p fresh now) e) in
      bind_rule (
        bind_rule (
          guard_rule _
            (λ a. bind_rule (
              guard_rule _
                (λ b. bind_rule (
                  guard_rule _
                    (λ c. bind_rule (
                      guard_rule _
                        (λ w.
                          guard_rule _ (λ d. bind_rule (bind_rule (query_rule _ r no)))
                            (refl, refl, refl, refl))
                        (refl, refl, refl, refl)))
                    (refl, refl, refl, refl)))
                (refl, refl, refl, refl)))
            (refl, refl, refl, refl)))

  -- Where a journal is left in a phase other than committed and rolled_back, `Begin` of any plan,
  -- under any faults, does not succeed, and leaves the live configuration and both files.
  pub begin-unfinished :
      (hash : Bytes → Bytes → Bytes) (decode : Bytes → Option (List Bytes)) (p : Plan)
      (fresh : Bytes) (now : ℕ) (m : Machine S) (j : Journal) (fs : List Fault)
      → m.journal ≡ some j
      → (phase_eq j.phase Phase.committed || phase_eq j.phase Phase.rolled_back) ≡ false
      → (is_ok ((begin hash decode p fresh now m fs).0) ≡ false)
        × (((begin hash decode p fresh now m fs).1).live ≡ m.live)
        × (((begin hash decode p fresh now m fs).1).journal ≡ m.journal)
        × (((begin hash decode p fresh now m fs).1).backup ≡ m.backup)
  begin-unfinished hash decode p fresh now m j fs ej e =
      (begin-Refuses hash decode p fresh now m j ej e).after_run fs
