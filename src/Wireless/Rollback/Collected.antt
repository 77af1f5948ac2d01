-- ===== src/Wireless/Rollback/Collected.antt =====
-- The loop of `rollback` in core/internal/wireless/transaction.go, over the entries that `Begin`
-- records for a plan of options: what it collects, against a reference.
use smart_srun.Prelude.{
  ◌≡◌, refl, sym, ◌∙◌, ap, subst, inl, inr, Bool, true, false, ◌||◌, some, List, [], ◌∷◌, arith,
  Bytes, bytes_eq_iff, bytes_eq_refl, if◌then◌else◌, Bool-cases,
}
use smart_srun.Prelude.Maps.{lookup}
use smart_srun.Wireless.Journal.{Key, key_eq, key_string, is_section, Entry, Journal, Backup}
use smart_srun.Wireless.Machine.{Value, Change, after, has_key, written, are_options, are_distinct}
use smart_srun.Wireless.Transaction.{entry_of, entries_of}
use smart_srun.Wireless.Rollback.{
  already_before, still_ours, saved_value, undo_one, undo_next, undo, Undo, nothing, keep, conflict,
  restore, remove_key, change_back, take_away,
}
use smart_srun.Wireless.Rollback.Entries.{
  key_eq_sound, key_eq_refl, written_miss, IsInjective, IsProper, already_before_sound,
}

module _ (before : Key → Value) where
  -- The backup has the value of a key that was there.
  abbrev HasSaved : Backup → Key → Type 0
  HasSaved b k = (before k).present ≡ true → lookup (key_string k) b.values ≡ some ((before k).text)

  -- What the loop needs to know of the plan and the backup.
  abbrev pub Ready : Backup → List Change → Type 0
  Ready b [] = Unit
  Ready b (c ∷ cs) =
      (is_section c.key ≡ false) × (has_key c.key cs ≡ false) × HasSaved b c.key × Ready b cs

module _ (hash : Bytes → Bytes → Bytes) (salt : Bytes) (before current : Key → Value) where
  -- The value is where the undo would put it, or it is the one that was written.
  abbrev pub is_ours : Change → Bool
  is_ours c =
      already_before hash salt (entry_of hash salt (before c.key) c) (current c.key)
      || still_ours hash salt (entry_of hash salt (before c.key) c) (current c.key)

  -- The reference: the value before where the value is ours, and the value that is there elsewhere.
  unfoldable pub undone : List Change → Key → Value
  undone [] k = current k
  undone (c ∷ cs) k =
      if key_eq c.key k then (if is_ours c then before k else current k) else undone cs k

  undone_miss : (cs : List Change) (k : Key) → has_key k cs ≡ false → undone cs k ≡ current k
  unfolding undone
  undone_miss [] k h = refl
  undone_miss (c ∷ cs) k h = ground (arith, undone_miss cs k)

  -- The keys that somebody else has changed.
  unfoldable pub theirs : List Change → List Key
  theirs [] = []
  theirs (c ∷ cs) = let rest = theirs cs in if is_ours c then rest else c.key ∷ rest

  -- What the loop collects for a plan.
  pub record Undoes (cs : List Change) (u : Undo) : Type 0 where
    pub conflicts : u.conflicts ≡ theirs cs
    pub options : are_options u.changes ≡ true
    pub distinct : are_distinct u.changes ≡ true
    pub missing : (k : Key) → has_key k cs ≡ false → has_key k u.changes ≡ false
    pub values : (k : Key) → written u.changes k (current k) ≡ undone cs k

  module _ (inj : IsInjective hash) (pb : (k : Key) → IsProper (before k))
      (pc : (k : Key) → IsProper (current k)) where
    -- Nothing is written, and the reference has the value that is there.
    same_values :
        (c : Change) (cs : List Change) (u : Undo)
        → has_key c.key cs ≡ false
        → (if is_ours c then before c.key else current c.key) ≡ current c.key
        → Undoes cs u
        → (k : Key) → written u.changes k (current k) ≡ undone (c ∷ cs) k
    unfolding undone
    same_values c cs u new e h k = elim (Bool-cases (key_eq c.key k)) [
      | inl t ↦
          subst (λ x. written u.changes x (current x) ≡ undone (c ∷ cs) x) (key_eq_sound c.key k t)
            (written_miss u.changes c.key (current c.key) (h.missing c.key new)
              ∙ rw (key_eq_refl c.key, e))
      | inr f ↦ ground (arith, h.values k)
    ]

    keep-Undoes :
        (c : Change) (cs : List Change) (u : Undo)
        → has_key c.key cs ≡ false
        → already_before hash salt (entry_of hash salt (before c.key) c) (current c.key) ≡ true
        → Undoes cs u
        → Undoes (c ∷ cs) (keep (entry_of hash salt (before c.key) c) u)
    unfolding theirs entry_of
    keep-Undoes c cs u new e h = record {
      conflicts = ground (arith, h.conflicts);
      options = h.options;
      distinct = h.distinct;
      missing = λ k m. ground (arith, h.missing k);
      values =
          same_values c cs u new
            (ap
                (λ x.
                  if (x
                    || still_ours hash salt (entry_of hash salt (before c.key) c) (current c.key))
                  then before c.key
                  else current c.key)
                e
              ∙ sym (
                  already_before_sound hash salt (before c.key) (current c.key) c inj (pb c.key)
                    (pc c.key) e))
            h;
    }

    conflict-Undoes :
        (c : Change) (cs : List Change) (u : Undo)
        → has_key c.key cs ≡ false
        → is_ours c ≡ false
        → Undoes cs u
        → Undoes (c ∷ cs) (conflict (entry_of hash salt (before c.key) c) u)
    unfolding theirs entry_of
    conflict-Undoes c cs u new e h = record {
      conflicts = ground (arith, h.conflicts);
      options = h.options;
      distinct = h.distinct;
      missing = λ k m. ground (arith, h.missing k);
      values = same_values c cs u new (ap (λ x. if x then before c.key else current c.key) e) h;
    }

    -- One more change, which writes the value before.
    write-Undoes :
        (c d : Change) (cs : List Change) (u v : Undo)
        → has_key c.key cs ≡ false
        → is_ours c ≡ true
        → is_section c.key ≡ false
        → d.key ≡ c.key
        → after d ≡ before c.key
        → v.changes ≡ (d ∷ u.changes)
        → v.conflicts ≡ u.conflicts
        → Undoes cs u
        → Undoes (c ∷ cs) v
    unfolding undone theirs written
    write-Undoes c d cs u v new e so dk da vc vk h = record {
      conflicts = vk ∙ h.conflicts ∙ ground (arith, e);
      options = ap are_options vc ∙ ground (arith, ap is_section dk, h.options);
      distinct =
          ap are_distinct vc
          ∙ ground (arith, ap (λ x. has_key x u.changes) dk, h.missing c.key new, h.distinct);
      missing = λ k m. ap (has_key k) vc ∙ ground (arith, ap (λ x. key_eq x k) dk, h.missing k);
      values = λ k.
          ap (λ x. written x k (current k)) vc
          ∙ ground (
            arith,
            ap (λ x. key_eq x k) dk,
            h.values k,
            ap before {x = c.key} {y = k},
            key_eq_sound c.key k,
          );
    }

    saved_value-HasSaved :
        (j : Journal) (b : Backup) (c : Change)
        → b.task_id ≡ j.task_id
        → j.salt ≡ salt
        → HasSaved before b c.key
        → (before c.key).present ≡ true
        → saved_value hash j b
            (entry_of hash salt (before c.key) c)
            (lookup (key_string c.key) b.values)
          ≡ some ((before c.key).text)
    unfolding saved_value entry_of
    saved_value-HasSaved j b c t s h p =
        ap (saved_value hash j b (entry_of hash salt (before c.key) c)) (h p)
        ∙ ground (
          arith,
          t,
          p,
          bytes_eq_iff b.task_id j.task_id,
          ap (λ x. hash x ((before c.key).text)) s,
          bytes_eq_refl (hash salt ((before c.key).text)),
        )

    undo_one-restore :
        (j : Journal) (b : Backup) (blocked : List Bytes) (e : Entry) (u : Undo) (v : Bytes)
        → is_section e.key ≡ false
        → already_before hash j.salt e (current e.key) ≡ false
        → still_ours hash j.salt e (current e.key) ≡ true
        → e.before_present ≡ true
        → saved_value hash j b e (lookup (key_string e.key) b.values) ≡ some v
        → undo_one hash j b blocked current e u ≡ some (restore e v u)
    unfolding undo_one
    undo_one-restore j b blocked e u v so a o p q = rw (so, a, o, q, p)

    -- An entry whose value is still the one that was written.
    ours-Undoes :
        (j : Journal) (b : Backup) (blocked : List Bytes) (c : Change) (cs : List Change) (u : Undo)
        → b.task_id ≡ j.task_id
        → j.salt ≡ salt
        → Ready before b (c ∷ cs)
        → already_before hash salt (entry_of hash salt (before c.key) c) (current c.key) ≡ false
        → still_ours hash salt (entry_of hash salt (before c.key) c) (current c.key) ≡ true
        → Undoes cs u
        → (p : Bool) → (before c.key).present ≡ p
        → (v : Undo) × (undo_one hash j b blocked current (entry_of hash salt (before c.key) c) u
            ≡ some v)
          × Undoes (c ∷ cs) v
    unfolding undo_one entry_of
    ours-Undoes j b blocked c cs u t s (so, new, saved, rest) a o h true p = (
      restore (entry_of hash salt (before c.key) c) ((before c.key).text) u,
      undo_one-restore j b blocked (entry_of hash salt (before c.key) c) u ((before c.key).text) so
          (ap (λ x. already_before hash x (entry_of hash salt (before c.key) c) (current c.key)) s
            ∙ a)
          (ap (λ x. still_ours hash x (entry_of hash salt (before c.key) c) (current c.key)) s ∙ o)
          p (saved_value-HasSaved j b c t s saved p),
      write-Undoes c (change_back (entry_of hash salt (before c.key) c) ((before c.key).text)) cs u
          _ new (ground (arith, a, o)) so refl (ground (arith, p)) refl refl h,
    )
    ours-Undoes j b blocked c cs u t s (so, new, saved, rest) a o h false p = (
      remove_key (entry_of hash salt (before c.key) c) u,
      rw (s, so, a, o, p),
      write-Undoes c (take_away (entry_of hash salt (before c.key) c)) cs u _ new
          (ground (arith, a, o)) so refl (sym (pb c.key p)) refl refl h,
    )

    undo_one-Undoes :
        (j : Journal) (b : Backup) (blocked : List Bytes) (c : Change) (cs : List Change) (u : Undo)
        → b.task_id ≡ j.task_id
        → j.salt ≡ salt
        → Ready before b (c ∷ cs)
        → Undoes cs u
        → (v : Undo) × (undo_one hash j b blocked current (entry_of hash salt (before c.key) c) u
            ≡ some v)
          × Undoes (c ∷ cs) v
    unfolding undo_one entry_of
    undo_one-Undoes j b blocked c cs u t s (so, new, saved, rest) h =
        elim (Bool-cases
          (already_before hash salt (entry_of hash salt (before c.key) c) (current c.key))) [
            | inl a ↦ (
              keep (entry_of hash salt (before c.key) c) u,
              rw (s, so, a),
              keep-Undoes c cs u new a h,
            )
            | inr a ↦
                elim (Bool-cases
                  (still_ours hash salt (entry_of hash salt (before c.key) c) (current c.key))) [
                    | inr o ↦ (
                      conflict (entry_of hash salt (before c.key) c) u,
                      rw (s, so, a, o),
                      conflict-Undoes c cs u new (ground (arith, a, o)) h,
                    )
                    | inl o ↦
                        ours-Undoes j b blocked c cs u t s (so, new, saved, rest) a o h
                          ((before c.key).present) refl
                  ]
          ]

    pub undo-Undoes :
        (j : Journal) (b : Backup) (blocked : List Bytes) (cs : List Change)
        → b.task_id ≡ j.task_id
        → j.salt ≡ salt
        → Ready before b cs
        → (u : Undo) × (undo hash j b blocked current (entries_of hash salt before cs) ≡ some u)
          × Undoes cs u
    unfolding undo undone theirs written
    undo-Undoes j b blocked [] t s r = (
      nothing,
      refl,
      record {
        conflicts = refl;
        options = refl;
        distinct = refl;
        missing = λ k m. refl;
        values = λ k. refl;
      },
    )
    undo-Undoes j b blocked (c ∷ cs) t s r =
        let (u, e, h) = undo-Undoes j b blocked cs t s (r.3) in
        let (v, d, k) = undo_one-Undoes j b blocked c cs u t s r h in
        (v, ap (undo_next hash j b blocked current (entry_of hash salt (before c.key) c)) e ∙ d, k)
