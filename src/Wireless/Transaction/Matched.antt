-- ===== src/Wireless/Transaction/Matched.antt =====
-- What `Apply` of core/internal/wireless/transaction.go accepts, for a journal of `Begin`: changes
-- that write what the plan writes.
use smart_srun.Prelude.{
  ◌≡◌, refl, sym, ◌∙◌, ap, ◌⊎◌, inl, inr, true, false, List, [], ◌∷◌, arith, Bytes, bytes_eq_iff,
  Bool-cases,
}
use smart_srun.Wireless.Journal.{Key, key_eq, is_section}
use smart_srun.Wireless.Machine.{Value, Change, after, has_key, written, are_distinct, are_options}
use smart_srun.Wireless.Transaction.{entry_of, entries_of, matches, match_any, match_all}
use smart_srun.Wireless.Rollback.Entries.{key_eq_sound, bool_eq_sound, IsInjective}

has_key-option :
    (ds : List Change) (k : Key)
    → are_options ds ≡ true
    → has_key k ds ≡ true
    → is_section k ≡ false
has_key-option [] k o h = ground (arith, h)
has_key-option (d ∷ ds) k o h = elim (Bool-cases (key_eq d.key k)) [
  | inl t ↦ ground (arith, o, ap is_section (key_eq_sound d.key k t))
  | inr f ↦ has_key-option ds k (ground (arith, o)) (ground (arith, h, f))
]

module _ (hash : Bytes → Bytes → Bytes) (salt : Bytes) (before : Key → Value)
    (inj : IsInjective hash) where
  matches-after :
      (c d : Change)
      → matches hash salt c (entry_of hash salt (before d.key) d) ≡ true
      → (key_eq d.key c.key ≡ true) × (after d ≡ after c)
  unfolding entry_of
  matches-after c d h = ground (
    arith,
    bool_eq_sound d.delete c.delete,
    bool_eq_sound d.is_list c.is_list,
    bytes_eq_iff (hash salt c.text) (hash salt d.text),
    inj salt c.text d.text,
  )

  match_any-has_key :
      (c : Change) (ds : List Change)
      → match_any hash salt c (entries_of hash salt before ds) ≡ true
      → has_key c.key ds ≡ true
  match_any-has_key c [] h = h
  match_any-has_key c (d ∷ ds) h =
      elim (Bool-cases (matches hash salt c (entry_of hash salt (before d.key) d))) [
        | inl t ↦ ground (arith, (matches-after c d t).0)
        | inr f ↦ ground (arith, match_any-has_key c ds)
      ]

  match_any-written :
      (c : Change) (ds : List Change) (v : Value)
      → are_distinct ds ≡ true
      → match_any hash salt c (entries_of hash salt before ds) ≡ true
      → written ds c.key v ≡ after c
  unfolding written
  match_any-written c [] v d h = ground (arith, h)
  match_any-written c (d ∷ ds) v e h =
      elim (Bool-cases (matches hash salt c (entry_of hash salt (before d.key) d))) [
        | inl t ↦ ground (arith, matches-after c d t)
        | inr f ↦
            let i = match_any-has_key c ds (ground (arith, h, f)) in
            elim (Bool-cases (key_eq d.key c.key)) [
              | inl t ↦ ground (arith, e, ap (λ x. has_key x ds) (key_eq_sound d.key c.key t), i)
              | inr g ↦ rw g (match_any-written c ds v (ground (arith, e)) (ground (arith, h, f)))
            ]
      ]

  -- A key gets what the plan gives it, or stays.
  pub match_all-written :
      (cs ds : List Change) (k : Key) (v : Value)
      → are_distinct ds ≡ true
      → match_all hash salt cs (entries_of hash salt before ds) ≡ true
      → (written cs k v ≡ v) ⊎ (written cs k v ≡ written ds k v)
  unfolding match_all written
  match_all-written [] ds k v d h = inl refl
  match_all-written (c ∷ cs) ds k v d h = elim (Bool-cases (key_eq c.key k)) [
    | inl t ↦ inr (
        rw t (
          sym (match_any-written c ds v d (ground (arith, h)))
          ∙ ap (λ x. written ds x v) (key_eq_sound c.key k t)))
    | inr f ↦ rw f (match_all-written cs ds k v d (ground (arith, h)))
  ]

  pub match_all-are_options :
      (cs ds : List Change)
      → are_options ds ≡ true
      → match_all hash salt cs (entries_of hash salt before ds) ≡ true
      → are_options cs ≡ true
  unfolding match_all
  match_all-are_options [] ds o h = refl
  match_all-are_options (c ∷ cs) ds o h = ground (
    arith,
    has_key-option ds c.key o (match_any-has_key c ds (ground (arith, h))),
    match_all-are_options cs ds o (ground (arith, h)),
  )
