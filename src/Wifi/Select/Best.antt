-- ===== src/Wifi/Select/Best.antt =====
-- What core/internal/wifi/select.go chooses.
use smart_srun.Prelude.{
  ◌≡◌, refl, sym, ◌∙◌, ap, subst, ◌⊎◌, inl, inr, Bool, true, false, Option, none, some, List, [],
  ◌∷◌, filter, Bytes, Bool-cases, arith, All, if◌then◌else◌,
}
use smart_srun.Wifi.Select.{
  ℤ, ltz, Candidate, Target, Choice, is_match, is_measured, is_stronger, bytes_lt, pin, first_of,
  strongest_of, select_strongest,
}

-- Membership.
pub data IsIn (c : Candidate) : List Candidate → Type 0 where
  here : (cs : List Candidate) → IsIn c (c ∷ cs)
  there : (d : Candidate) (cs : List Candidate) → IsIn c cs → IsIn c (d ∷ cs)

-- No later element goes strictly before an earlier one.
abbrev pub IsOrdered : List Candidate → Type 0
IsOrdered [] = Unit
IsOrdered (c ∷ cs) = All (λ d. is_stronger d c ≡ false) cs × IsOrdered cs

-- What slices.SortFunc documents: the same elements, in ascending order.
pub record IsSort (sort : List Candidate → List Candidate) : Type 0 where
  pub kept : (c : Candidate) (cs : List Candidate) → IsIn c cs → IsIn c (sort cs)
  pub came : (c : Candidate) (cs : List Candidate) → IsIn c (sort cs) → IsIn c cs
  pub ordered : (cs : List Candidate) → IsOrdered (sort cs)

IsIn-All :
    (P : Candidate → Type 0) (c : Candidate) (cs : List Candidate) → All P cs → IsIn c cs → P c
IsIn-All P c [] a i = elim i [ ]
IsIn-All P c (_ ∷ cs) a (IsIn.here _) = a.0
IsIn-All P c (_ ∷ cs) a (IsIn.there d _ i) = IsIn-All P c cs (a.1) i

pub IsIn-cases : (c d : Candidate) (cs : List Candidate) → IsIn c (d ∷ cs) → (d ≡ c) ⊎ IsIn c cs
IsIn-cases c _ cs (IsIn.here _) = inl refl
IsIn-cases c d cs (IsIn.there _ _ i) = inr i

pub filter-IsIn :
    (p : Candidate → Bool) (c : Candidate) (cs : List Candidate)
    → IsIn c (filter p cs)
    → IsIn c cs × (p c ≡ true)
filter-IsIn p c [] i = elim i [ ]
filter-IsIn p c (d ∷ cs) i =
    let later : IsIn c (filter p cs) → IsIn c (d ∷ cs) × (p c ≡ true) =
      λ k. (IsIn.there d cs ((filter-IsIn p c cs k).0), (filter-IsIn p c cs k).1) in
    elim (Bool-cases (p d)) [
      | inl t ↦ elim (IsIn-cases c d (filter p cs) (subst (IsIn c) (rw t refl) i)) [
        | inl e ↦ subst (λ x. IsIn x (d ∷ cs) × (p x ≡ true)) e (IsIn.here cs, t)
        | inr k ↦ later k
      ]
      | inr f ↦ later (subst (IsIn c) (rw f refl) i)
    ]

IsIn-filter :
    (p : Candidate → Bool) (c : Candidate) (cs : List Candidate)
    → IsIn c cs
    → p c ≡ true
    → IsIn c (filter p cs)
IsIn-filter p c [] i t = elim i [ ]
IsIn-filter p c (_ ∷ cs) (IsIn.here _) t = rw t (IsIn.here (filter p cs))
IsIn-filter p c (_ ∷ cs) (IsIn.there d _ i) t = elim (Bool-cases (p d)) [
  | inl e ↦ rw e (IsIn.there d (filter p cs) (IsIn-filter p c cs i t))
  | inr e ↦ rw e (IsIn-filter p c cs i t)
]

bytes_lt_irrefl : (a : Bytes) → bytes_lt a a ≡ false
unfolding bytes_lt
bytes_lt_irrefl [] = refl
bytes_lt_irrefl (x ∷ a) = ground (arith, bytes_lt_irrefl a)

bytes_lt_connected : (a b : Bytes) → bytes_lt a b ≡ false → bytes_lt b a ≡ false → a ≡ b
unfolding bytes_lt
bytes_lt_connected [] [] h k = refl
bytes_lt_connected [] (y ∷ b) h k = ground (arith, h)
bytes_lt_connected (x ∷ a) [] h k = ground (arith, k)
bytes_lt_connected (x ∷ a) (y ∷ b) h k = ground (arith, h, k, bytes_lt_connected a b)

ltz_irrefl : (a : ℤ) → ltz a a ≡ false
ltz_irrefl (ℤ.pos a) = ground arith
ltz_irrefl (ℤ.negsuc a) = ground arith

pub is_stronger_irrefl : (c : Candidate) → is_stronger c c ≡ false
unfolding is_stronger
is_stronger_irrefl c = ground (arith, bytes_lt_irrefl c.bssid, ltz_irrefl c.signal)

-- Two access points, neither of which goes first, have one address.
same_bssid :
    (a b : Candidate) → is_stronger a b ≡ false → is_stronger b a ≡ false → a.bssid ≡ b.bssid
unfolding is_stronger
same_bssid a b h k = ground (arith, bytes_lt_connected a.bssid b.bssid)

-- What makes an access point at least as good as another: its signal was measured and that of the other
-- was not, or it is stronger, or the signals are equal and its address is not the later one.
pub data IsAtLeast (best c : Candidate) : Type 0 where
  by_measure : is_measured best ≡ true → is_measured c ≡ false → IsAtLeast best c
  by_signal : is_measured best ≡ is_measured c → ltz c.signal best.signal ≡ true → IsAtLeast best c
  by_address :
      is_measured best ≡ is_measured c
      → best.signal ≡ c.signal
      → bytes_lt c.bssid best.bssid ≡ false
      → IsAtLeast best c

ltz_connected : (a b : ℤ) → ltz a b ≡ false → ltz b a ≡ false → a ≡ b
ltz_connected (ℤ.pos a) (ℤ.pos b) h k = ap ℤ.pos (ground (arith, h, k))
ltz_connected (ℤ.pos a) (ℤ.negsuc b) h k = absurd (ground (arith, h, k))
ltz_connected (ℤ.negsuc a) (ℤ.pos b) h k = absurd (ground (arith, h, k))
ltz_connected (ℤ.negsuc a) (ℤ.negsuc b) h k = ap ℤ.negsuc (ground (arith, h, k))

first-IsAtLeast : (best c : Candidate) → is_stronger c best ≡ false → IsAtLeast best c
unfolding is_stronger
first-IsAtLeast best c h = elim (Bool-cases (is_measured best)) [
  | inl m ↦ elim (Bool-cases (is_measured c)) [
    | inl n ↦ by_strength (m ∙ sym n) (ground (arith, h, m, n))
    | inr n ↦ IsAtLeast.by_measure m n
  ]
  | inr m ↦ elim (Bool-cases (is_measured c)) [
    | inl n ↦ absurd (ground (arith, h, m, n))
    | inr n ↦ by_strength (m ∙ sym n) (ground (arith, h, m, n))
  ]
]
  where
    by_strength :
        is_measured best ≡ is_measured c
        → (if ltz best.signal c.signal
            then true
            else if ltz c.signal best.signal
            then false
            else bytes_lt c.bssid best.bssid)
          ≡ false
        → IsAtLeast best c
    by_strength same k = elim (Bool-cases (ltz c.signal best.signal)) [
      | inl t ↦ IsAtLeast.by_signal same t
      | inr f ↦
          IsAtLeast.by_address same (ltz_connected best.signal c.signal (ground (arith, k, f)) f)
            (ground (arith, k, f))
    ]

-- The access point that is chosen, or a default.
taken : Candidate → Choice → Candidate
taken c (Choice.decided d) = elim d.chosen [ none ↦ c | some x ↦ x ]
taken c (Choice.refused e) = c
taken c Choice.panics = c

-- The address that is chosen.
abbrev pub address : Choice → Option Bytes
address (Choice.decided d) = some d.bssid
address (Choice.refused e) = none
address Choice.panics = none

module _ (sort : List Candidate → List Candidate) (lawful : IsSort sort) where
  -- The element that is taken from access points of which there is one.
  strongest_of-best :
      (t : Target) (cs : List Candidate) (c : Candidate)
      → IsIn c cs
      → (best : Candidate) × (strongest_of sort t cs ≡ Choice.decided (pin t best.bssid best))
        × IsIn best cs
        × (is_stronger c best ≡ false)
  strongest_of-best t [] c i = elim i [ ]
  strongest_of-best t (d ∷ cs) c i = head (sort (d ∷ cs)) refl (lawful.kept c (d ∷ cs) i)
    where
      behind :
          (best : Candidate) (rest : List Candidate)
          → All (λ x. is_stronger x best ≡ false) rest
          → IsIn c (best ∷ rest)
          → is_stronger c best ≡ false
      behind best rest a (IsIn.here _) = is_stronger_irrefl c
      behind best rest a (IsIn.there _ _ k) = IsIn-All (λ x. is_stronger x best ≡ false) c rest a k

      head :
          (xs : List Candidate)
          → sort (d ∷ cs) ≡ xs
          → IsIn c xs
          → (best : Candidate) × (first_of t (sort (d ∷ cs))
              ≡ Choice.decided (pin t best.bssid best))
            × IsIn best (d ∷ cs)
            × (is_stronger c best ≡ false)
      head [] e k = elim k [ ]
      head (best ∷ rest) e k = (
        best,
        ap (first_of t) e,
        lawful.came best (d ∷ cs) (subst (IsIn best) (sym e) (IsIn.here rest)),
        behind best rest ((subst IsOrdered e (lawful.ordered (d ∷ cs))).0) k,
      )

  select_strongest-first :
      (t : Target) (cs : List Candidate) (c : Candidate)
      → IsIn c cs
      → is_match t c ≡ true
      → (best : Candidate) × (select_strongest sort t cs ≡ Choice.decided (pin t best.bssid best))
        × IsIn best cs
        × (is_match t best ≡ true)
        × (is_stronger c best ≡ false)
  unfolding select_strongest
  select_strongest-first t cs c i m =
      let (best, e, k, s) =
        strongest_of-best t (filter (is_match t) cs) c (IsIn-filter (is_match t) c cs i m) in
      let (l, n) = filter-IsIn (is_match t) best cs k in (best, e, l, n, s)

  -- The sort gives the same elements in ascending order. Where an access point of the scan matches the
  -- target, the policy strongest decides for one of the scan that matches and is at least as good: only its
  -- signal was measured, or both were or neither was and its signal is stronger, or the signals are
  -- equal and its address is not the later one.
  pub select_strongest-best :
      (t : Target) (cs : List Candidate) (c : Candidate)
      → IsIn c cs
      → is_match t c ≡ true
      → (best : Candidate) × (select_strongest sort t cs ≡ Choice.decided (pin t best.bssid best))
        × IsIn best cs
        × (is_match t best ≡ true)
        × IsAtLeast best c
  select_strongest-best t cs c i m =
      let (best, e, l, n, s) = select_strongest-first t cs c i m in
      (best, e, l, n, first-IsAtLeast best c s)

  -- The sort gives the same elements in ascending order. Two scans with the same access points, in any
  -- order, of which one matches the target, give one address under the policy strongest.
  pub select_strongest-any_order :
      (t : Target) (cs ds : List Candidate) (c : Candidate)
      → ((x : Candidate) → IsIn x cs → IsIn x ds)
      → ((x : Candidate) → IsIn x ds → IsIn x cs)
      → IsIn c cs
      → is_match t c ≡ true
      → address (select_strongest sort t cs) ≡ address (select_strongest sort t ds)
  unfolding taken
  select_strongest-any_order t cs ds c to from i m =
      let (a, ea, ia, ma, sa) = select_strongest-first t cs c i m in
      let (b, eb, ib, mb, sb) = select_strongest-first t ds a (to a ia) ma in
      let (x, ex, ix, mx, sx) = select_strongest-first t cs b (from b ib) mb in
      let same : a ≡ x = ap (taken c) (sym ea ∙ ex) in
      ap address ea
      ∙ ap some (same_bssid a b sb (subst (λ y. is_stronger b y ≡ false) (sym same) sx))
      ∙ sym (ap address eb)
