-- ===== src/Wireless/Rollback/Saved.antt =====
-- The backup that `Begin` in core/internal/wireless/transaction.go writes: `keyString` of journal.go on
-- the keys that `checkKey` accepts, and the values that are looked up by it.
use smart_srun.Prelude.{
  ◌≡◌, refl, sym, ◌∙◌, inl, inr, ap, Bool, true, false, not, Option, some, List, [], ◌∷◌, ◌++◌, any,
  arith, Bytes, bytes_eq, bytes_eq_iff, bytes_eq_refl, if◌then◌else◌, Bool-cases,
}
use smart_srun.Prelude.Maps.{lookup, insert, lookup-insert}
use smart_srun.Wireless.Journal.{Key, key_eq, key_string, is_section, Backup}
use smart_srun.Wireless.Machine.{Value, Change, has_key, are_options, are_distinct}
use smart_srun.Wireless.Check.{name_symbol, check_key, check_writable}
use smart_srun.Wireless.Transaction.{values_of}
use smart_srun.Wireless.Rollback.Entries.{key_eq_refl}
use smart_srun.Wireless.Rollback.Collected.{Ready}

is_word : Bytes → Bool
is_word s = not (any (λ c. not (name_symbol c)) s)

dot_inj :
    (s t x y : Bytes)
    → is_word s ≡ true
    → is_word t ≡ true
    → s ++ (46 ∷ x) ≡ t ++ (46 ∷ y)
    → (s ≡ t) × (x ≡ y)
unfolding is_word
dot_inj [] [] x y a b e = (refl, ground (arith, e))
dot_inj [] (c ∷ t) x y a b e = ground (arith, e)
dot_inj (c ∷ s) [] x y a b e = ground (arith, e)
dot_inj (c ∷ s) (d ∷ t) x y a b e = ground (arith, e, dot_inj s t x y)

check_key-is_word : (k : Key) → check_key k ≡ true → is_word k.section ≡ true
unfolding check_key is_word
check_key-is_word k h = ground arith

key_string-option : (k : Key) → is_section k ≡ false → key_string k ≡ k.section ++ (46 ∷ k.option)
unfolding key_string
key_string-option k o = rw o

-- `keyString` tells the options apart that `checkKey` accepts.
key_string_inj :
    (a b : Key)
    → check_key a ≡ true
    → check_key b ≡ true
    → is_section a ≡ false
    → is_section b ≡ false
    → key_string a ≡ key_string b
    → a ≡ b
unfolding key_string
key_string_inj a b ca cb oa ob e =
    let h =
      dot_inj a.section b.section a.option b.option (check_key-is_word a ca)
        (check_key-is_word b cb) (sym (key_string-option a oa) ∙ e ∙ key_string-option b ob) in
    ground (arith, h)

key_string-eq :
    (a b : Key)
    → check_key a ≡ true
    → check_key b ≡ true
    → is_section a ≡ false
    → is_section b ≡ false
    → key_eq a b ≡ false
    → bytes_eq (key_string a) (key_string b) ≡ false
key_string-eq a b ca cb oa ob n = elim (Bool-cases (bytes_eq (key_string a) (key_string b))) [
  | inr f ↦ f
  | inl t ↦
      let e = key_string_inj a b ca cb oa ob ((bytes_eq_iff (key_string a) (key_string b)).0 t) in
      ground (arith, sym (key_eq_refl a) ∙ ap (key_eq a) e ∙ n)
]

module _ (before : Key → Value) (decode : Bytes → Option (List Bytes)) where
  save : Change → List (Bytes × Bytes) → List (Bytes × Bytes)
  save c m = if (before c.key).present then insert (key_string c.key) ((before c.key).text) m else m

  lookup-save :
      (c : Change) (m : List (Bytes × Bytes)) (k : Key)
      → bytes_eq (key_string c.key) (key_string k) ≡ false
      → lookup (key_string k) (save c m) ≡ lookup (key_string k) m
  unfolding save
  lookup-save c m k h =
      ground (arith, h, lookup-insert (key_string c.key) (key_string k) ((before c.key).text) m)

  lookup-save-same :
      (c : Change) (m : List (Bytes × Bytes))
      → (before c.key).present ≡ true
      → lookup (key_string c.key) (save c m) ≡ some ((before c.key).text)
  unfolding save
  lookup-save-same c m p = ground (
    arith,
    p,
    bytes_eq_refl (key_string c.key),
    lookup-insert (key_string c.key) (key_string c.key) ((before c.key).text) m,
  )

  lookup-values_of :
      (cs : List Change) (m : List (Bytes × Bytes)) (k : Key)
      → check_key k ≡ true
      → is_section k ≡ false
      → check_writable decode cs ≡ true
      → are_options cs ≡ true
      → has_key k cs ≡ false
      → lookup (key_string k) (values_of before cs m) ≡ lookup (key_string k) m
  unfolding values_of check_writable save
  lookup-values_of [] m k ck ok w o n = refl
  lookup-values_of (c ∷ cs) m k ck ok w o n =
      let h =
        key_string-eq c.key k (ground (arith, w)) ck (ground (arith, o)) ok (ground (arith, n)) in
      lookup-values_of cs _ k ck ok (ground (arith, w)) (ground (arith, o)) (ground (arith, n))
      ∙ lookup-save c m k h

  pub values_of-Ready :
      (cs : List Change) (m : List (Bytes × Bytes)) (b : Backup)
      → check_writable decode cs ≡ true
      → are_options cs ≡ true
      → are_distinct cs ≡ true
      → b.values ≡ values_of before cs m
      → Ready before b cs
  unfolding values_of check_writable save
  values_of-Ready [] m b w o d e = tt
  values_of-Ready (c ∷ cs) m b w o d e = (
    ground (arith, o),
    ground (arith, d),
    λ p.
        ap (lookup (key_string c.key)) e
        ∙ lookup-values_of cs _ c.key (ground (arith, w)) (ground (arith, o)) (ground (arith, w))
            (ground (arith, o)) (ground (arith, d))
        ∙ lookup-save-same c m p,
    values_of-Ready cs _ b (ground (arith, w)) (ground (arith, o)) (ground (arith, d)) e,
  )
