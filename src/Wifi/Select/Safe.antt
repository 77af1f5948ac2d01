-- ===== src/Wifi/Select/Safe.antt =====
-- What core/internal/wifi/select.go pins.
use smart_srun.Prelude.{
  ◌≡◌, sym, subst, inl, inr, Bool, true, ◌||◌, ◌&&◌, not, none, some, List, [], ◌∷◌, filter,
  is_empty, Bytes, bytes_eq, Bool-cases, arith, bytes_eq_iff,
}
use smart_srun.Wifi.Security.{
  Security, is_protected, is_security_unknown, accepts, classify, before_plus, parse_security,
}
use smart_srun.Domain.Enums.{ApSelection}
use smart_srun.Wifi.Select.{
  Candidate, Target, Decision, Choice, is_match, first_of, strongest_of, unassociated,
  select_strongest, find_pinned, select_pinned, select, by_policy,
}
use smart_srun.Wifi.Select.Best.{IsIn, IsSort, filter-IsIn}

-- Where a choice is pinned, its access point satisfies `P`; and it is pinned where that is asked for.
abbrev pub Keeps : (Candidate → Type 0) → Choice → Type 0
Keeps P (Choice.decided d) = elim d.chosen [ none ↦ Unit | some c ↦ P c ]
Keeps P (Choice.refused e) = Unit
Keeps P Choice.panics = Unit

-- Not both protected and open.
abbrev pub is_closed : Security → Bool
is_closed s = not (is_protected s && s.open_bit)

classify-is_closed : (v : Bytes) → is_closed (classify v) ≡ true
unfolding classify
classify-is_closed v = ground arith

accepts-is_protected :
    (s t : Security)
    → is_closed s ≡ true
    → is_protected s ≡ true
    → accepts s t ≡ true
    → is_protected t ≡ true
accepts-is_protected s t c p a = ground arith

module _ (lower trim : Bytes → Bytes) (fold_eq : Bytes → Bytes → Bool)
    (sort : List Candidate → List Candidate) (lawful : IsSort sort) (t : Target) where
  abbrev Fits : List Candidate → Candidate → Type 0
  Fits cs c = IsIn c cs × (is_match t c ≡ true)

  strongest_of-Keeps :
      (cs : List Candidate) (P : Candidate → Type 0)
      → ((c : Candidate) → IsIn c cs → P c)
      → Keeps P (strongest_of sort t cs)
  strongest_of-Keeps [] P h = tt
  strongest_of-Keeps (c ∷ cs) P h = first (sort (c ∷ cs)) (λ x i. h x (lawful.came x (c ∷ cs) i))
    where
      first : (xs : List Candidate) → ((x : Candidate) → IsIn x xs → P x) → Keeps P (first_of t xs)
      first [] k = tt
      first (x ∷ xs) k = k x (IsIn.here xs)

  find_pinned-Keeps :
      (pinned : Bytes) (cs : List Candidate) (P : Candidate → Type 0)
      → ((c : Candidate) → IsIn c cs → P c)
      → Keeps P (find_pinned lower trim fold_eq t pinned cs)
  unfolding find_pinned
  find_pinned-Keeps pinned [] P h = tt
  find_pinned-Keeps pinned (c ∷ cs) P h = elim (Bool-cases (fold_eq c.bssid pinned)) [
    | inl e ↦ rw e (h c (IsIn.here cs))
    | inr e ↦ rw e (find_pinned-Keeps pinned cs P (λ x i. h x (IsIn.there c cs i)))
  ]

  select_pinned-Keeps :
      (pinned : Bytes) (cs : List Candidate)
      → Keeps (Fits cs) (select_pinned lower trim fold_eq t pinned cs)
  unfolding select_pinned
  select_pinned-Keeps pinned cs =
      elim (Bool-cases (is_empty pinned || bytes_eq pinned unassociated)) [
        | inl e ↦ rw e tt
        | inr e ↦ rw e (
            find_pinned-Keeps pinned (filter (is_match t) cs) (Fits cs)
              (λ c i. filter-IsIn (is_match t) c cs i))
      ]

  by_policy-Keeps :
      (p : ApSelection) (cs : List Candidate)
      → Keeps (Fits cs) (by_policy lower trim fold_eq sort p t cs)
  unfolding select_strongest
  by_policy-Keeps ApSelection.auto cs = tt
  by_policy-Keeps ApSelection.strongest cs =
      strongest_of-Keeps (filter (is_match t) cs) (Fits cs) (λ c i. filter-IsIn (is_match t) c cs i)
  by_policy-Keeps ApSelection.fixed cs = select_pinned-Keeps (lower (trim t.pinned_bssid)) cs
  by_policy-Keeps ApSelection.other cs = tt

  select-Keeps : (cs : List Candidate) → Keeps (Fits cs) (select lower trim fold_eq sort t cs)
  unfolding select
  select-Keeps cs = elim (Bool-cases (is_empty t.ssid)) [
    | inl e ↦ rw e tt
    | inr e ↦ elim (Bool-cases (is_security_unknown t.security)) [
      | inl f ↦ rw (e, f) tt
      | inr f ↦ rw (e, f) (by_policy-Keeps t.policy cs)
    ]
  ]

  -- The sort gives the same elements in ascending order. Under any policy, where the target's security
  -- is what the configured encryption is read as, and is protected: an access point that `Select` pins
  -- is one of the scan, has the target's SSID, and offers a protected network.
  pub select-is_protected :
      (encryption : Bytes) (cs : List Candidate) (d : Decision) (c : Candidate)
      → t.security ≡ parse_security lower trim encryption
      → is_protected t.security ≡ true
      → select lower trim fold_eq sort t cs ≡ Choice.decided d
      → d.chosen ≡ some c
      → IsIn c cs × (c.ssid ≡ t.ssid) × (is_protected c.security ≡ true)
  unfolding parse_security
  select-is_protected encryption cs d c es p e k =
      let fits : Keeps (Fits cs) (Choice.decided d) = subst (Keeps (Fits cs)) e (select-Keeps cs) in
      let (i, m) = subst (λ o. elim o [ none ↦ Unit | some x ↦ Fits cs x ]) k fits in
      let closed : is_closed t.security ≡ true =
        subst (λ x. is_closed x ≡ true) (sym es)
          (classify-is_closed (before_plus (lower (trim encryption)))) in
      (
        i,
        ground (arith, m, bytes_eq_iff c.ssid t.ssid),
        accepts-is_protected t.security c.security closed p (ground (arith, m)),
      )
