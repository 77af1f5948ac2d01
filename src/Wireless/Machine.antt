-- ===== src/Wireless/Machine.antt =====
-- What a wireless transaction works on: the store of transaction.go as an interface, the two files of
-- journal.go, and the faults of both. A crash is a schedule in which every operation from some point
-- on fails.
pub mod Faults
pub mod Clean
use smart_srun.Prelude.{
  ℕ, ◌≡◌, Bool, true, false, not, ◌&&◌, ◌||◌, Option, none, some, List, [], ◌∷◌, ◌==◌,
  if◌then◌else◌, Bytes,
}
use smart_srun.Domain.Errors.{ErrorCode}
use smart_srun.Wireless.Journal.{
  Phase, Key, key_eq, is_section, Entry, Journal, journal_version, Backup,
}

-- `Value`. `Text` is a JSON array where `IsList` holds.
pub record Value : Type 0 where
  pub text : Bytes
  pub present : Bool
  pub is_list : Bool

abbrev pub absent : Value
absent = record { text = []; present = false; is_list = false }

pub record Change : Type 0 where
  pub key : Key
  pub text : Bytes
  pub is_list : Bool
  pub delete : Bool

-- The value that a change leaves.
abbrev pub after : Change → Value
after c = if c.delete then absent else record { text = c.text; present = true; is_list = c.is_list }

-- `Store`: what the live configuration answers, and what `Stage` and `Commit` together make of it.
pub record Store : Type 1 where
  pub State : Type 0
  pub read : State → Bytes → Key → Value
  pub section_keys : State → Bytes → Bytes → List Key
  pub write : State → Bytes → List Change → State
  -- the number of changes that `PendingChanges` reports
  pub pending : State → Bytes → ℕ

-- The value of a key after changes of options.
unfoldable pub written : List Change → Key → Value → Value
written [] k v = v
written (c ∷ cs) k v = if key_eq c.key k then after c else written cs k v

abbrev pub are_options : List Change → Bool
are_options [] = true
are_options (c ∷ cs) = not (is_section c.key) && are_options cs

abbrev pub has_key : Key → List Change → Bool
has_key k [] = false
has_key k (c ∷ cs) = key_eq c.key k || has_key k cs

abbrev pub are_distinct : List Change → Bool
are_distinct [] = true
are_distinct (c ∷ cs) = not (has_key c.key cs) && are_distinct cs

-- A change of distinct options writes these and no other key, and an option that is not present has
-- no text.
pub record IsLawful (S : Store) : Type 0 where
  pub read-write :
      (s : S.State) (pkg : Bytes) (cs : List Change) (k : Key)
      → are_options cs ≡ true
      → are_distinct cs ≡ true
      → S.read (S.write s pkg cs) pkg k ≡ written cs k (S.read s pkg k)
  pub read_absent :
      (s : S.State) (pkg : Bytes) (k : Key)
      → (S.read s pkg k).present ≡ false
      → S.read s pkg k ≡ absent

-- An operation succeeds, fails with no effect, or fails after its effect.
pub data Fault : Type 0 where
  passes fails fails_after : Fault

pub data Error : Type 0 where
  refused : ErrorCode → Error
  -- an error of the store or of a file
  failed : Error

pub data Result {ℓ} (A : Type ℓ) : Type ℓ where
  ok : A → Result A
  err : Error → Result A

module _ (S : Store) where
  -- `memory` is the journal that the transaction points to, `staged` the candidate of the store.
  pub record Machine : Type 0 where
    pub live : S.State
    pub staged : List Change
    pub journal : Option Journal
    pub backup : Option Backup
    pub memory : Journal

  -- The result, the machine after, and the faults to come.
  abbrev pub Run : Type 0 → Type 0
  Run A = Result A × Machine × List Fault

  abbrev pub M : Type 0 → Type 0
  M A = Machine → List Fault → Run A

module _ {S : Store} where
  unfoldable pub pure : {A : Type 0} → A → M S A
  pure a m fs = (ok a, m, fs)

  unfoldable pub throw : {A : Type 0} → ErrorCode → M S A
  throw c m fs = (err (refused c), m, fs)

  abbrev pub and_then : {A B : Type 0} → Run S A → (A → M S B) → Run S B
  and_then (ok a, m, fs) f = f a m fs
  and_then (err e, m, fs) f = (err e, m, fs)

  infixl 5 ◌>>=◌ ◌>>◌
  unfoldable pub ◌>>=◌ : {A B : Type 0} → M S A → (A → M S B) → M S B
  ◌>>=◌ c f m fs = and_then (c m fs) f

  abbrev pub ◌>>◌ : {A B : Type 0} → M S A → M S B → M S B
  c >> d = c >>= λ _. d

  unfoldable pub guard : Bool → ErrorCode → M S (Unit {0})
  guard true c m fs = (ok tt, m, fs)
  guard false c m fs = (err (refused c), m, fs)

  -- An assignment in memory.
  unfoldable pub assign : (Machine S → Machine S) → M S (Unit {0})
  assign f m fs = (ok tt, f m, fs)

  -- An operation that changes the store or a file. With no faults left, it succeeds.
  unfoldable pub attempt : (Machine S → Machine S) → M S (Unit {0})
  attempt f m [] = (ok tt, f m, [])
  attempt f m (Fault.passes ∷ fs) = (ok tt, f m, fs)
  attempt f m (Fault.fails ∷ fs) = (err failed, m, fs)
  attempt f m (Fault.fails_after ∷ fs) = (err failed, f m, fs)

  -- An operation that only reads.
  unfoldable pub query : {A : Type 0} → (Machine S → A) → M S A
  query q m [] = (ok (q m), m, [])
  query q m (Fault.passes ∷ fs) = (ok (q m), m, fs)
  query q m (_ ∷ fs) = (err failed, m, fs)

  -- `SaveJournal`, of the journal in memory.
  abbrev pub save_journal : M S (Unit {0})
  save_journal = attempt (λ m. record m { journal = some m.memory })

  abbrev pub set_memory : Journal → M S (Unit {0})
  set_memory j = assign (λ m. record m { memory = j })

  abbrev pub set_phase : Phase → M S (Unit {0})
  set_phase p = do assign (λ m. record m { memory = record (m.memory) { phase = p } }); save_journal

  abbrev pub readable : Option Journal → M S (Option Journal)
  readable none = pure none
  readable (some j) =
      if j.version == journal_version || j.version == 1
      then pure (some j)
      else throw ErrorCode.recovery_required

  abbrev pub load_journal : M S (Option Journal)
  load_journal = do j ← query (λ m. m.journal); readable j

  abbrev pub save_backup : Backup → M S (Unit {0})
  save_backup b = attempt (λ m. record m { backup = some b })

  abbrev pub load_backup : M S (Option Backup)
  load_backup = query (λ m. m.backup)

  -- `Clear`: the backup goes first.
  abbrev pub clear : M S (Unit {0})
  clear = do attempt (λ m. record m { backup = none }); attempt (λ m. record m { journal = none })

  abbrev pub read : Bytes → M S (Key → Value)
  read pkg = query (λ m k. S.read m.live pkg k)

  abbrev pub stage : List Change → M S (Unit {0})
  stage cs = attempt (λ m. record m { staged = cs })

  -- `Commit` publishes what was staged, all of it.
  abbrev pub commit : Bytes → M S (Unit {0})
  commit pkg = attempt (λ m. record m { live = S.write m.live pkg m.staged; staged = [] })

  abbrev pub reload : M S (Unit {0})
  reload = attempt (λ m. m)
