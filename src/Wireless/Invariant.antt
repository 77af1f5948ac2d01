-- ===== src/Wireless/Invariant.antt =====
-- The invariant of one wireless transaction of core/internal/wireless/transaction.go, in which nobody
-- else edits the options of its plan: what its memory, the two files and the live configuration say.
pub mod Forward
pub mod Backward
pub mod Restart
pub mod Start
use smart_srun.Prelude.{
  ℕ, ◌≡◌, refl, sym, ◌∙◌, ap, subst, ◌⊎◌, inl, inr, Bool, true, false, not, ◌&&◌, ◌||◌, Option,
  none, some, List, [], ◌∷◌, arith, Bytes, Bool-cases,
}
use smart_srun.Wireless.Journal.{Key, Journal, Backup, Phase}
use smart_srun.Wireless.Machine.{
  Value, Change, Store, IsLawful, Machine, M, Result, ok, err, Error, set_phase, clear, ◌>>=◌,
  after, written, are_distinct, are_options,
}
use smart_srun.Wireless.Machine.Faults.{
  Ensures, Then, bind_rule, attempt_rule, query_rule, guard_rule, assign_rule,
}
use smart_srun.Wireless.Check.{check_writable}
use smart_srun.Wireless.Transaction.{
  Plan, phase_eq, planned_backup, planned_journal, may_apply, match_all, apply_with, apply,
}
use smart_srun.Wireless.Transaction.Matched.{match_all-written, match_all-are_options}
use smart_srun.Wireless.Rollback.Entries.{IsInjective, IsProper}
use smart_srun.Wireless.Rollback.Mixed.{IsMixed}

-- A plan of distinct options that passes the checks of `Begin`, on values that a store can report,
-- and a hash that tells texts apart.
pub record IsSound (hash : Bytes → Bytes → Bytes) (decode : Bytes → Option (List Bytes)) (p : Plan)
    (before : Key → Value) : Type 0 where
  pub injective : IsInjective hash
  pub options : are_options p.changes ≡ true
  pub distinct : are_distinct p.changes ≡ true
  pub writable : check_writable decode p.changes ≡ true
  pub proper : (k : Key) → IsProper (before k)

-- The live configuration is the one of the start in these phases.
abbrev pub is_clean : Phase → Bool
is_clean q =
    phase_eq q Phase.planned || (phase_eq q Phase.backed_up || phase_eq q Phase.rolled_back)

abbrev pub at_phase : Journal → Phase → Journal
at_phase j q = record j { phase = q }

module _ (S : Store) (p : Plan) (before : Key → Value) where
  -- Every key reads as before the transaction.
  abbrev pub AtStart : S.State → Type 0
  AtStart s = (k : Key) → S.read s p.pkg k ≡ before k

module _ (S : Store) (p : Plan) (before : Key → Value) (j : Journal) where
  abbrev pub KeptFile : S.State → Option Journal → Type 0
  KeptFile s f =
      (f ≡ none)
      ⊎ ((q : Phase) × (f ≡ some (at_phase j q)) × (is_clean q ≡ true → AtStart S p before s))

  pub record Kept (m : Machine S) : Type 0 where
    pub phase : Phase
    pub memory : m.memory ≡ at_phase j phase
    pub clean : is_clean phase ≡ true → AtStart S p before m.live
    pub file : KeptFile m.live m.journal
    pub saved : (m.backup ≡ none) ⊎ (m.backup ≡ some (planned_backup p before))
    pub mixed : IsMixed p.changes before (S.read m.live p.pkg)

module _ {S : Store} {p : Plan} {before : Key → Value} {j : Journal} where
  pub restage :
      (cs : List Change) {m : Machine S}
      → Kept S p before j m
      → Kept S p before j (record m { staged = cs })
  restage cs h = record {
    phase = h.phase;
    memory = h.memory;
    clean = h.clean;
    file = h.file;
    saved = h.saved;
    mixed = h.mixed;
  }

  -- A phase is set in memory.
  pub rephase :
      (q : Phase) {m : Machine S}
      → (is_clean q ≡ true → AtStart S p before m.live)
      → Kept S p before j m
      → Kept S p before j (record m { memory = record (m.memory) { phase = q } })
  rephase q e h = record {
    phase = q;
    memory = ap (λ x. at_phase x q) h.memory;
    clean = e;
    file = h.file;
    saved = h.saved;
    mixed = h.mixed;
  }

  -- The journal in memory is saved.
  resave :
      {m : Machine S}
      → Kept S p before j m
      → Kept S p before j (record m { journal = some m.memory })
  resave h = record {
    phase = h.phase;
    memory = h.memory;
    clean = h.clean;
    file = inr (h.phase, ap some h.memory, h.clean);
    saved = h.saved;
    mixed = h.mixed;
  }

  drop_backup :
      {m : Machine S} → Kept S p before j m → Kept S p before j (record m { backup = none })
  drop_backup h = record {
    phase = h.phase;
    memory = h.memory;
    clean = h.clean;
    file = h.file;
    saved = inl refl;
    mixed = h.mixed;
  }

  drop_journal :
      {m : Machine S} → Kept S p before j m → Kept S p before j (record m { journal = none })
  drop_journal h = record {
    phase = h.phase;
    memory = h.memory;
    clean = h.clean;
    file = inl refl;
    saved = h.saved;
    mixed = h.mixed;
  }

  -- The journal is read back.
  pub reload_memory :
      (q : Phase) {m : Machine S}
      → (is_clean q ≡ true → AtStart S p before m.live)
      → Kept S p before j m
      → Kept S p before j (record m { memory = at_phase j q })
  reload_memory q e h = record {
    phase = q;
    memory = refl;
    clean = e;
    file = h.file;
    saved = h.saved;
    mixed = h.mixed;
  }

  -- A phase is set, and what may be live in it is published.
  pub published :
      (q : Phase) (s : S.State) {m : Machine S}
      → is_clean q ≡ false
      → m.memory ≡ at_phase j q
      → m.journal ≡ some (at_phase j q)
      → IsMixed p.changes before (S.read s p.pkg)
      → Kept S p before j m
      → Kept S p before j (record m { live = s; staged = [] })
  published q s e a f x h = record {
    phase = q;
    memory = a;
    clean = λ t. ground (arith, e, t);
    file = inr (q, f, λ t. ground (arith, e, t));
    saved = h.saved;
    mixed = x;
  }

  -- `setPhase`.
  pub set_phase_rule :
      (q : Phase) {m : Machine S} {Q : Result (Unit {0}) → Machine S → Type 0}
      → (is_clean q ≡ true → AtStart S p before m.live)
      → Kept S p before j m
      → ((n : Machine S) → Kept S p before j n → n.live ≡ m.live → (e : Error) → Q (err e) n)
      → (Kept S p before j (record m {
        memory = record (m.memory) { phase = q };
        journal = some (record (m.memory) { phase = q });
      })
          → Q (ok tt) (record m {
            memory = record (m.memory) { phase = q };
            journal = some (record (m.memory) { phase = q });
          }))
      → Ensures (set_phase q) m Q
  set_phase_rule q e h f k =
      let a = rephase q e h in
      bind_rule
        (assign_rule _ (attempt_rule _ (k (resave a)) (f _ a refl _) (f _ (resave a) refl _)))

  -- `Clear`.
  pub clear_rule :
      {m : Machine S} {Q : Result (Unit {0}) → Machine S → Type 0}
      → Kept S p before j m
      → ((n : Machine S) → Kept S p before j n → n.live ≡ m.live → (e : Error) → Q (err e) n)
      → (Kept S p before j (record m { backup = none; journal = none })
          → Q (ok tt) (record m { backup = none; journal = none }))
      → Ensures clear m Q
  clear_rule h f k =
      let b = drop_backup h in
      bind_rule (
        attempt_rule _
          (attempt_rule _ (k (drop_journal b)) (f _ b refl _) (f _ (drop_journal b) refl _))
          (f _ h refl _) (f _ b refl _))
