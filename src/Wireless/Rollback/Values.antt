-- ===== src/Wireless/Rollback/Values.antt =====
-- What a rollback makes of a configuration, by the values alone: without the journal, and without the
-- hashes in it.
use smart_srun.Prelude.{
  ◌≡◌, refl, ap, Bool, true, false, not, ◌&&◌, ◌||◌, List, [], ◌∷◌, arith, Bytes, bytes_eq,
  bytes_eq_iff, bytes_eq_refl, if◌then◌else◌,
}
use smart_srun.Wireless.Journal.{Key, key_eq}
use smart_srun.Wireless.Machine.{Value, Change, after}
use smart_srun.Wireless.Transaction.{bool_eq, entry_of}
use smart_srun.Wireless.Rollback.{already_before, still_ours}
use smart_srun.Wireless.Rollback.Entries.{IsInjective, IsProper}
use smart_srun.Wireless.Rollback.Collected.{is_ours, theirs, undone}

abbrev pub value_eq : Value → Value → Bool
value_eq v w =
    bool_eq v.present w.present && (bool_eq v.is_list w.is_list && bytes_eq v.text w.text)

-- Two values that have no text where they are absent.
value_eq_proper :
    (v w : Value)
    → IsProper v
    → IsProper w
    → (p q : Bool) → v.present ≡ p
    → w.present ≡ q
    → (if w.present
        then v.present && (bool_eq v.is_list w.is_list && bytes_eq v.text w.text)
        else not v.present)
      ≡ value_eq v w
value_eq_proper v w pv pw true true e f = ground (arith, e, f)
value_eq_proper v w pv pw false true e f = ground (arith, e, f)
value_eq_proper v w pv pw true false e f = ground (arith, e, f)
value_eq_proper v w pv pw false false e f =
    rw
      (
        e,
        f,
        ap Value.is_list (pv e),
        ap Value.is_list (pw f),
        ap Value.text (pv e),
        ap Value.text (pw f),
        bytes_eq_refl [],
      )
      refl

after-IsProper : (c : Change) → IsProper (after c)
after-IsProper c h = ground (arith, h)

hash_eq :
    (hash : Bytes → Bytes → Bytes) (salt a b : Bytes)
    → IsInjective hash
    → bytes_eq (hash salt a) (hash salt b) ≡ bytes_eq a b
hash_eq hash salt a b inj = ground (
  arith,
  bytes_eq_iff (hash salt a) (hash salt b),
  bytes_eq_iff a b,
  inj salt a b,
  bytes_eq_refl (hash salt a),
  ap (hash salt) {x = a} {y = b},
)

module _ (before found : Key → Value) where
  -- The option has the value that was written, or the one before the transaction.
  abbrev pub is_untouched : Change → Bool
  is_untouched c = value_eq (found c.key) (before c.key) || value_eq (found c.key) (after c)

  -- The keys that somebody else has changed.
  unfoldable pub edited_keys : List Change → List Key
  edited_keys [] = []
  edited_keys (c ∷ cs) = let rest = edited_keys cs in if is_untouched c then rest else c.key ∷ rest

  -- The value of a key when what nobody else has changed is put back.
  unfoldable pub put_back_at : List Change → Key → Value
  put_back_at [] k = found k
  put_back_at (c ∷ cs) k =
      if key_eq c.key k then (if is_untouched c then before k else found k) else put_back_at cs k

  module _ (hash : Bytes → Bytes → Bytes) (salt : Bytes) (inj : IsInjective hash)
      (proper_before : (k : Key) → IsProper (before k))
      (proper_found : (k : Key) → IsProper (found k)) where
    already_before-value_eq :
        (c : Change)
        → already_before hash salt (entry_of hash salt (before c.key) c) (found c.key)
          ≡ value_eq (found c.key) (before c.key)
    unfolding already_before entry_of
    already_before-value_eq c = ground (
      arith,
      hash_eq hash salt (found c.key).text (before c.key).text inj,
      value_eq_proper (found c.key) (before c.key) (proper_found c.key) (proper_before c.key) _ _
          refl refl,
    )

    still_ours-value_eq :
        (c : Change)
        → still_ours hash salt (entry_of hash salt (before c.key) c) (found c.key)
          ≡ value_eq (found c.key) (after c)
    unfolding still_ours entry_of
    still_ours-value_eq c = ground (
      arith,
      hash_eq hash salt (found c.key).text c.text inj,
      value_eq_proper (found c.key) (after c) (proper_found c.key) (after-IsProper c) _ _ refl refl,
    )

    is_ours-untouched : (c : Change) → is_ours hash salt before found c ≡ is_untouched c
    is_ours-untouched c = rw (already_before-value_eq c, still_ours-value_eq c) refl

    pub theirs-edited_keys : (cs : List Change) → theirs hash salt before found cs ≡ edited_keys cs
    unfolding theirs edited_keys
    theirs-edited_keys [] = refl
    theirs-edited_keys (c ∷ cs) = rw (is_ours-untouched c, theirs-edited_keys cs) refl

    pub undone-put_back_at :
        (cs : List Change) (k : Key) → undone hash salt before found cs k ≡ put_back_at cs k
    unfolding undone put_back_at
    undone-put_back_at [] k = refl
    undone-put_back_at (c ∷ cs) k = rw (is_ours-untouched c, undone-put_back_at cs k) refl
