-- ===== src/Wireless/Rollback/Entries.antt =====
-- The two tests of core/internal/wireless/transaction.go on the value of an entry: `alreadyBefore`
-- and `stillOurs`, for the entry that `Begin` records.
use smart_srun.Prelude.{
  ◌≡◌, refl, Bool, true, false, List, [], ◌∷◌, arith, Bytes, bytes_eq_iff, bytes_eq_refl,
}
use smart_srun.Wireless.Journal.{Key, key_eq}
use smart_srun.Wireless.Machine.{Value, Change, absent, after, has_key, written}
use smart_srun.Wireless.Transaction.{bool_eq, entry_of}
use smart_srun.Wireless.Rollback.{already_before, still_ours}

pub bool_eq_refl : (b : Bool) → bool_eq b b ≡ true
bool_eq_refl true = refl
bool_eq_refl false = refl

pub bool_eq_sound : (a b : Bool) → bool_eq a b ≡ true → a ≡ b
bool_eq_sound true true h = refl
bool_eq_sound false false h = refl
bool_eq_sound true false h = cc
bool_eq_sound false true h = cc

pub key_eq_sound : (a b : Key) → key_eq a b ≡ true → a ≡ b
key_eq_sound a b h =
    ground (arith, bytes_eq_iff a.section b.section, bytes_eq_iff a.option b.option)

pub key_eq_refl : (a : Key) → key_eq a a ≡ true
key_eq_refl a = ground (arith, bytes_eq_refl a.section, bytes_eq_refl a.option)

pub written_miss :
    (cs : List Change) (k : Key) (v : Value) → has_key k cs ≡ false → written cs k v ≡ v
unfolding written
written_miss [] k v h = refl
written_miss (c ∷ cs) k v h = ground (arith, written_miss cs k v)

-- The hash tells texts apart, under any one salt.
abbrev pub IsInjective : (Bytes → Bytes → Bytes) → Type 0
IsInjective hash = (salt a b : Bytes) → hash salt a ≡ hash salt b → a ≡ b

-- A value that is not present has no text.
abbrev pub IsProper : Value → Type 0
IsProper v = v.present ≡ false → v ≡ absent

module _ (hash : Bytes → Bytes → Bytes) where
  pub already_before_refl :
      (salt : Bytes) (v : Value) (c : Change)
      → already_before hash salt (entry_of hash salt v c) v ≡ true
  unfolding already_before entry_of
  already_before_refl salt v c =
      ground (arith, bytes_eq_refl (hash salt v.text), bool_eq_refl v.is_list)

  pub already_before_sound :
      (salt : Bytes) (v w : Value) (c : Change)
      → IsInjective hash
      → IsProper v
      → IsProper w
      → already_before hash salt (entry_of hash salt v c) w ≡ true
      → w ≡ v
  unfolding already_before entry_of
  already_before_sound salt v w c inj pv pw h = ground (
    arith,
    bytes_eq_iff (hash salt w.text) (hash salt v.text),
    bool_eq_sound w.is_list v.is_list,
    inj salt w.text v.text,
  )

  pub still_ours-after :
      (salt : Bytes) (v : Value) (c : Change)
      → still_ours hash salt (entry_of hash salt v c) (after c) ≡ true
  unfolding still_ours entry_of
  still_ours-after salt v c =
      ground (arith, bytes_eq_refl (hash salt c.text), bool_eq_refl c.is_list)
