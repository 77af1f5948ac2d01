-- ===== src/Wireless/Rollback/Mixed.antt =====
-- The loop of `rollback` in core/internal/wireless/transaction.go where nobody else has edited the
-- options of the plan: each one has the value before or the one that was written.
use smart_srun.Prelude.{
  ◌≡◌, refl, ◌∙◌, ap, ◌⊎◌, inl, inr, true, false, ◌||◌, List, [], ◌∷◌, arith, Bytes, if◌then◌else◌,
  Bool-cases,
}
use smart_srun.Wireless.Journal.{Key, key_eq}
use smart_srun.Wireless.Machine.{Value, Change, after, has_key, written, are_distinct}
use smart_srun.Wireless.Transaction.{entry_of}
use smart_srun.Wireless.Rollback.{already_before, still_ours}
use smart_srun.Wireless.Rollback.Entries.{
  key_eq_sound, key_eq_refl, written_miss, already_before_refl, still_ours-after,
}
use smart_srun.Wireless.Rollback.Collected.{is_ours, undone, theirs}

-- Every key has its value before, or the one that the changes give it.
abbrev pub IsMixed : List Change → (Key → Value) → (Key → Value) → Type 0
IsMixed cs before current =
    (k : Key) → (current k ≡ before k) ⊎ (current k ≡ written cs k (before k))

module _ (hash : Bytes → Bytes → Bytes) (salt : Bytes) (before current : Key → Value) where
  is_ours-after :
      (c : Change)
      → (current c.key ≡ before c.key) ⊎ (current c.key ≡ after c)
      → is_ours hash salt before current c ≡ true
  is_ours-after c (inl e) =
      ap
        (λ x.
          already_before hash salt (entry_of hash salt (before c.key) c) x
          || still_ours hash salt (entry_of hash salt (before c.key) c) x)
        e
      ∙ ground (arith, already_before_refl hash salt (before c.key) c)
  is_ours-after c (inr e) =
      ap
        (λ x.
          already_before hash salt (entry_of hash salt (before c.key) c) x
          || still_ours hash salt (entry_of hash salt (before c.key) c) x)
        e
      ∙ ground (arith, still_ours-after hash salt (before c.key) c)

  abbrev IsMixedOn : List Change → Type 0
  IsMixedOn cs =
      (k : Key)
      → has_key k cs ≡ true
      → (current k ≡ before k) ⊎ (current k ≡ written cs k (before k))

  tail-IsMixedOn :
      (c : Change) (cs : List Change) → has_key c.key cs ≡ false → IsMixedOn (c ∷ cs) → IsMixedOn cs
  unfolding written
  tail-IsMixedOn c cs new h k i = elim (Bool-cases (key_eq c.key k)) [
    | inl t ↦ ground (arith, ap (λ x. has_key x cs) (key_eq_sound c.key k t))
    | inr f ↦ elim (h k (ground (arith, i))) [ inl e ↦ inl e | inr e ↦ inr (e ∙ rw f) ]
  ]

  head_ours :
      (c : Change) (cs : List Change)
      → IsMixedOn (c ∷ cs)
      → is_ours hash salt before current c ≡ true
  unfolding written
  head_ours c cs h = is_ours-after c (elim (h c.key (ground (arith, key_eq_refl c.key))) [
    | inl e ↦ inl e
    | inr e ↦ inr (e ∙ rw (key_eq_refl c.key))
  ])

  theirs_none :
      (cs : List Change)
      → are_distinct cs ≡ true
      → IsMixedOn cs
      → theirs hash salt before current cs ≡ []
  unfolding theirs
  theirs_none [] d h = refl
  theirs_none (c ∷ cs) d h =
      let r = theirs_none cs (ground (arith, d)) (tail-IsMixedOn c cs (ground (arith, d)) h) in
      ground (arith, r, head_ours c cs h)

  undone_all :
      (cs : List Change) (k : Key)
      → are_distinct cs ≡ true
      → IsMixedOn cs
      → undone hash salt before current cs k ≡ (if has_key k cs then before k else current k)
  unfolding undone
  undone_all [] k d h = refl
  undone_all (c ∷ cs) k d h =
      let r = undone_all cs k (ground (arith, d)) (tail-IsMixedOn c cs (ground (arith, d)) h) in
      ground (arith, r, head_ours c cs h)

  -- Nobody else's value is found.
  pub theirs-IsMixed :
      (cs : List Change)
      → are_distinct cs ≡ true
      → IsMixed cs before current
      → theirs hash salt before current cs ≡ []
  theirs-IsMixed cs d h = theirs_none cs d (λ k i. h k)

  -- Every key gets its value before.
  pub undone-IsMixed :
      (cs : List Change) (k : Key)
      → are_distinct cs ≡ true
      → IsMixed cs before current
      → undone hash salt before current cs k ≡ before k
  undone-IsMixed cs k d h = undone_all cs k d (λ j i. h j) ∙ elim (Bool-cases (has_key k cs)) [
    | inl t ↦ rw t
    | inr f ↦ rw f (elim (h k) [ inl e ↦ e | inr e ↦ e ∙ written_miss cs k (before k) f ])
  ]
