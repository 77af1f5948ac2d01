-- ===== src/Examples/Scans.antt =====
-- A scan with a protected and an open network of one name, and insertion as the sort.
use smart_srun.Prelude.{
  ◌≡◌, refl, ap, subst, inl, inr, true, false, List, [], ◌∷◌, if◌then◌else◌, Bytes, bytes_eq, codes,
  Bool-cases, arith, All,
}
use smart_srun.Wifi.Security.{
  security_open, security_psk, is_protected, parse_security, classify, before_plus,
}
use smart_srun.Domain.Enums.{ApSelection}
use smart_srun.Wifi.Select.{
  ℤ, ltz, Candidate, Target, Choice, is_match, is_stronger, bytes_lt, pin, select_strongest, select,
}
use smart_srun.Wifi.Select.Best.{IsIn-cases, is_stronger_irrefl}
use smart_srun.Wifi.Select.Best.{
  IsIn, IsOrdered, IsSort, IsAtLeast, select_strongest-best, select_strongest-any_order, address,
}
use smart_srun.Wifi.Select.Safe.{select-is_protected}

put : Candidate → List Candidate → List Candidate
put c [] = c ∷ []
put c (d ∷ ds) = let rest = put c ds in if is_stronger c d then c ∷ d ∷ ds else d ∷ rest

sorted : List Candidate → List Candidate
sorted [] = []
sorted (c ∷ cs) = put c (sorted cs)

put-IsIn : (x c : Candidate) (cs : List Candidate) → IsIn x (c ∷ cs) → IsIn x (put c cs)
unfolding put
put-IsIn x c [] i = i
put-IsIn x c (d ∷ ds) i = elim (Bool-cases (is_stronger c d)) [
  | inl e ↦ rw e i
  | inr e ↦ rw e (elim (IsIn-cases x c (d ∷ ds) i) [
    | inl t ↦
        IsIn.there d (put c ds) (put-IsIn x c ds (subst (λ y. IsIn y (c ∷ ds)) t (IsIn.here ds)))
    | inr k ↦ elim (IsIn-cases x d ds k) [
      | inl t ↦ subst (λ y. IsIn y (d ∷ put c ds)) t (IsIn.here (put c ds))
      | inr l ↦ IsIn.there d (put c ds) (put-IsIn x c ds (IsIn.there c ds l))
    ]
  ])
]

IsIn-put : (x c : Candidate) (cs : List Candidate) → IsIn x (put c cs) → IsIn x (c ∷ cs)
unfolding put
IsIn-put x c [] i = i
IsIn-put x c (d ∷ ds) i = elim (Bool-cases (is_stronger c d)) [
  | inl e ↦ subst (IsIn x) (rw e refl) i
  | inr e ↦ elim (IsIn-cases x d (put c ds) (subst (IsIn x) (rw e refl) i)) [
    | inl t ↦ subst (λ y. IsIn y (c ∷ d ∷ ds)) t (IsIn.there c (d ∷ ds) (IsIn.here ds))
    | inr k ↦ elim (IsIn-cases x c ds (IsIn-put x c ds k)) [
      | inl t ↦ subst (λ y. IsIn y (c ∷ d ∷ ds)) t (IsIn.here (d ∷ ds))
      | inr l ↦ IsIn.there c (d ∷ ds) (IsIn.there d ds l)
    ]
  ]
]

bytes_lt_trans : (a b c : Bytes) → bytes_lt a b ≡ true → bytes_lt b c ≡ true → bytes_lt a c ≡ true
unfolding bytes_lt
bytes_lt_trans [] [] c h k = ground (arith, h)
bytes_lt_trans a [] c h k = ground (arith, k, h)
bytes_lt_trans [] (y ∷ b) [] h k = ground (arith, k)
bytes_lt_trans [] (y ∷ b) (z ∷ c) h k = refl
bytes_lt_trans (x ∷ a) (y ∷ b) [] h k = ground (arith, k)
bytes_lt_trans (x ∷ a) (y ∷ b) (z ∷ c) h k = ground (arith, h, k, bytes_lt_trans a b c)

ltz_trans : (a b c : ℤ) → ltz a b ≡ true → ltz b c ≡ true → ltz a c ≡ true
ltz_trans (ℤ.pos a) (ℤ.pos b) (ℤ.pos c) h k = ground (arith, h, k)
ltz_trans (ℤ.pos a) (ℤ.pos b) (ℤ.negsuc c) h k = ground (arith, k)
ltz_trans (ℤ.pos a) (ℤ.negsuc b) c h k = ground (arith, h)
ltz_trans (ℤ.negsuc a) b (ℤ.pos c) h k = refl
ltz_trans (ℤ.negsuc a) (ℤ.pos b) (ℤ.negsuc c) h k = ground (arith, k)
ltz_trans (ℤ.negsuc a) (ℤ.negsuc b) (ℤ.negsuc c) h k = ground (arith, h, k)

ltz_connected : (a b : ℤ) → ltz a b ≡ false → ltz b a ≡ false → a ≡ b
ltz_connected (ℤ.pos a) (ℤ.pos b) h k = ap ℤ.pos (ground (arith, h, k))
ltz_connected (ℤ.pos a) (ℤ.negsuc b) h k = ground (arith, k)
ltz_connected (ℤ.negsuc a) (ℤ.pos b) h k = ground (arith, h)
ltz_connected (ℤ.negsuc a) (ℤ.negsuc b) h k = ap ℤ.negsuc (ground (arith, h, k))

is_stronger_trans :
    (a b c : Candidate) → is_stronger a b ≡ true → is_stronger b c ≡ true → is_stronger a c ≡ true
unfolding is_stronger
is_stronger_trans a b c h k = ground (
  arith,
  bytes_lt_trans a.bssid b.bssid c.bssid,
  ltz_trans c.signal b.signal a.signal,
  ltz_connected a.signal b.signal,
  ltz_connected b.signal c.signal,
)

-- Nothing goes before an element that goes before another that nothing goes before.
before-All :
    (c d : Candidate) (ds : List Candidate)
    → is_stronger c d ≡ true
    → All (λ x. is_stronger x d ≡ false) ds
    → All (λ x. is_stronger x c ≡ false) ds
before-All c d [] e a = tt
before-All c d (x ∷ ds) e a =
    (ground (arith, e, a.0, is_stronger_trans x c d), before-All c d ds e (a.1))

put-All :
    (P : Candidate → Type 0) (c : Candidate) (cs : List Candidate)
    → P c
    → All P cs
    → All P (put c cs)
unfolding put
put-All P c [] h a = (h, tt)
put-All P c (d ∷ ds) h a = elim (Bool-cases (is_stronger c d)) [
  | inl e ↦ rw e (h, a)
  | inr e ↦ rw e (a.0, put-All P c ds h (a.1))
]

put-IsOrdered : (c : Candidate) (cs : List Candidate) → IsOrdered cs → IsOrdered (put c cs)
unfolding put
put-IsOrdered c [] o = (tt, tt)
put-IsOrdered c (d ∷ ds) o = elim (Bool-cases (is_stronger c d)) [
  | inl e ↦ rw e (
    (ground (arith, e, is_stronger_trans d c d, is_stronger_irrefl d), before-All c d ds e (o.0)),
    o,
  )
  | inr e ↦ rw e (put-All (λ x. is_stronger x d ≡ false) c ds e (o.0), put-IsOrdered c ds (o.1))
]

sorted-IsOrdered : (cs : List Candidate) → IsOrdered (sorted cs)
unfolding sorted
sorted-IsOrdered [] = tt
sorted-IsOrdered (c ∷ cs) = put-IsOrdered c (sorted cs) (sorted-IsOrdered cs)

IsIn-sorted : (x : Candidate) (cs : List Candidate) → IsIn x (sorted cs) → IsIn x cs
unfolding sorted
IsIn-sorted x [] i = i
IsIn-sorted x (c ∷ cs) i = elim (IsIn-cases x c (sorted cs) (IsIn-put x c (sorted cs) i)) [
  | inl t ↦ subst (λ y. IsIn y (c ∷ cs)) t (IsIn.here cs)
  | inr k ↦ IsIn.there c cs (IsIn-sorted x cs k)
]

sorted-IsIn : (x : Candidate) (cs : List Candidate) → IsIn x cs → IsIn x (sorted cs)
unfolding sorted
sorted-IsIn x [] i = i
sorted-IsIn x (c ∷ cs) i = put-IsIn x c (sorted cs) (elim (IsIn-cases x c cs i) [
  | inl t ↦ subst (λ y. IsIn y (c ∷ sorted cs)) t (IsIn.here (sorted cs))
  | inr k ↦ IsIn.there c (sorted cs) (sorted-IsIn x cs k)
])

sorted-IsSort : IsSort sorted
sorted-IsSort = record { kept = sorted-IsIn; came = IsIn-sorted; ordered = sorted-IsOrdered }

abbrev same_text : Bytes → Bytes
same_text s = s

abbrev home : Candidate
home = record {
  ssid = codes "campus";
  bssid = codes "aa";
  signal = ℤ.negsuc 60;
  security = security_psk;
  radio = codes "radio0";
}

abbrev near : Candidate
near = record {
  ssid = codes "campus";
  bssid = codes "bb";
  signal = ℤ.negsuc 20;
  security = security_open;
  radio = codes "radio0";
}

abbrev far : Candidate
far = record home { bssid = codes "cc"; signal = ℤ.negsuc 50 }

abbrev target : Target
target = record {
  ssid = codes "campus";
  security = security_psk;
  policy = ApSelection.strongest;
  pinned_bssid = [];
}

abbrev scan : List Candidate
scan = home ∷ near ∷ far ∷ []

abbrev backwards : List Candidate
backwards = far ∷ near ∷ home ∷ []

home_matches : is_match target home ≡ true
unfolding bytes_eq
home_matches = refl

select_strongest-best_example :
    (best : Candidate) × (select_strongest sorted target scan
      ≡ Choice.decided (pin target best.bssid best))
    × IsIn best scan
    × (is_match target best ≡ true)
    × IsAtLeast best home
select_strongest-best_example =
    select_strongest-best sorted sorted-IsSort target scan home (IsIn.here (near ∷ far ∷ []))
      home_matches

reordered : (x : Candidate) (a b c : Candidate) → IsIn x (a ∷ b ∷ c ∷ []) → IsIn x (c ∷ b ∷ a ∷ [])
reordered x a b c i = elim (IsIn-cases x a (b ∷ c ∷ []) i) [
  | inl t ↦
      subst (λ y. IsIn y (c ∷ b ∷ a ∷ [])) t
        (IsIn.there c (b ∷ a ∷ []) (IsIn.there b (a ∷ []) (IsIn.here [])))
  | inr k ↦ elim (IsIn-cases x b (c ∷ []) k) [
    | inl t ↦
        subst (λ y. IsIn y (c ∷ b ∷ a ∷ [])) t (IsIn.there c (b ∷ a ∷ []) (IsIn.here (a ∷ [])))
    | inr l ↦ elim (IsIn-cases x c [] l) [
      | inl t ↦ subst (λ y. IsIn y (c ∷ b ∷ a ∷ [])) t (IsIn.here (b ∷ a ∷ []))
      | inr n ↦ elim n [ ]
    ]
  ]
]

select_strongest-any_order_example :
    address (select_strongest sorted target scan)
    ≡ address (select_strongest sorted target backwards)
select_strongest-any_order_example =
    select_strongest-any_order sorted sorted-IsSort target scan backwards home
      (λ x i. reordered x home near far i) (λ x i. reordered x far near home i)
      (IsIn.here (near ∷ far ∷ [])) home_matches

reads : target.security ≡ parse_security same_text same_text (codes "psk2")
unfolding parse_security classify before_plus bytes_eq
reads = refl

selects :
    select same_text same_text bytes_eq sorted target scan
    ≡ Choice.decided (pin target (codes "cc") far)
unfolding select select_strongest sorted put is_stronger bytes_eq
selects = refl

select-is_protected_example :
    IsIn far scan × (far.ssid ≡ target.ssid) × (is_protected far.security ≡ true)
select-is_protected_example =
    select-is_protected same_text same_text bytes_eq sorted sorted-IsSort target (codes "psk2") scan
      (pin target (codes "cc") far) far reads refl selects refl
