-- ===== src/Auth/Accounts.antt =====
-- core/internal/auth/result.go: when two names are one account.
use smart_srun.Prelude.{
  ◌≡◌, refl, ap, sym, ◌∙◌, true, false, ◌&&◌, Option, none, some, [], ◌∷◌, ◌++◌, elem, is_empty,
  Bytes, bytes_eq, bytes_eq_iff, bytes_eq_refl, arith,
}
use smart_srun.Prelude.Texts.{Folding, cut}
use smart_srun.Auth.Identity.{bare_account, realm_of, same_trimmed, same_account}

-- `name@realm`.
abbrev pub with_realm : Bytes → Bytes → Bytes
with_realm name realm = name ++ (b'@' ∷ realm)

cut-with_realm :
    (name realm : Bytes)
    → elem b'@' name ≡ false
    → cut b'@' (with_realm name realm) ≡ some (name, realm)
unfolding cut
cut-with_realm [] realm h = ground (arith, cut b'@' realm)
cut-with_realm (b ∷ bs) realm h = ground (arith, cut-with_realm bs realm)

first_half : Option (Bytes × Bytes) → Bytes
first_half none = []
first_half (some (a, b)) = a

second_half : Option (Bytes × Bytes) → Bytes
second_half none = []
second_half (some (a, b)) = b

bare_account-with_realm :
    (name realm : Bytes)
    → elem b'@' name ≡ false
    → is_empty name ≡ false
    → bare_account (with_realm name realm) ≡ name
unfolding bare_account
bare_account-with_realm name realm h e = ground (arith, cut-with_realm name realm h)

realm_of-with_realm :
    (name realm : Bytes)
    → elem b'@' name ≡ false
    → is_empty name ≡ false
    → realm_of (with_realm name realm) ≡ realm
unfolding realm_of
realm_of-with_realm name realm h e = ground (arith, cut-with_realm name realm h)

-- One name has one account part and one realm.
realm_unique :
    (a b r s : Bytes)
    → elem b'@' a ≡ false
    → elem b'@' b ≡ false
    → with_realm a r ≡ with_realm b s
    → (a ≡ b) × (r ≡ s)
unfolding first_half second_half
realm_unique a b r s h k e =
    let halved = sym (cut-with_realm a r h) ∙ (ap (cut b'@') e ∙ cut-with_realm b s k) in
    (ap first_half halved, ap second_half halved)

is_empty-with_realm : (a r : Bytes) → is_empty (with_realm a r) ≡ false
is_empty-with_realm [] r = refl
is_empty-with_realm (b ∷ bs) r = refl

-- Where the trimming leaves both names, the folding makes a realm equal to itself, neither the account
-- parts nor the realms are empty, and no account part has an @, two names that state a realm are one
-- account exactly if their account parts are equal and their realms are equal up to case.
pub same_account-with_realm :
    (folding : Folding) (a b r s : Bytes)
    → ((t : Bytes) → folding.equal_fold t t ≡ true)
    → folding.trim_space (with_realm a r) ≡ with_realm a r
    → folding.trim_space (with_realm b s) ≡ with_realm b s
    → elem b'@' a ≡ false
    → elem b'@' b ≡ false
    → is_empty a ≡ false
    → is_empty b ≡ false
    → is_empty r ≡ false
    → is_empty s ≡ false
    → same_account folding (with_realm a r) (with_realm b s)
      ≡ (bytes_eq a b && folding.equal_fold r s)
unfolding same_account same_trimmed
same_account-with_realm folding a b r s reflexive t u ha hb ea eb er es =
    rw
      (
        t,
        u,
        is_empty-with_realm a r,
        is_empty-with_realm b s,
        bare_account-with_realm a r ha ea,
        bare_account-with_realm b s hb eb,
        realm_of-with_realm a r ha ea,
        realm_of-with_realm b s hb eb,
        er,
        es,
      )
      (ground (
        arith,
        bytes_eq_iff a b,
        bytes_eq_refl b,
        bytes_eq_iff (with_realm a r) (with_realm b s),
        realm_unique a b r s ha hb,
        reflexive s,
      ))
