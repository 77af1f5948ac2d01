-- ===== src/Wifi/Select.antt =====
-- core/internal/wifi/select.go. The case folding and the trimming of Unicode text are parameters, and so
-- is the sort of the standard library.
pub mod Best
pub mod Safe
use smart_srun.Prelude.{
  ℕ, suc, Bool, true, false, ◌||◌, ◌&&◌, not, Option, none, some, List, [], ◌∷◌, ◌==◌, ltb,
  if◌then◌else◌, filter, any, is_empty, Bytes, bytes_eq, codes,
}
use smart_srun.Domain.Enums.{ApSelection}
use smart_srun.Domain.Errors.{ErrorCode}
use smart_srun.Wifi.Security.{Security, is_protected, is_security_unknown, accepts}

-- Go's int, for levels in dBm.
pub data ℤ : Type 0 where
  pos negsuc : ℕ → ℤ

-- `a < b`.
abbrev pub ltz : ℤ → ℤ → Bool
ltz (pos a) (pos b) = ltb a b
ltz (pos a) (negsuc b) = false
ltz (negsuc a) (pos b) = true
ltz (negsuc a) (negsuc b) = ltb b a

abbrev pub unassociated : Bytes
unassociated = codes "00:00:00:00:00:00"

pub record Candidate : Type 0 where
  pub ssid : Bytes
  pub bssid : Bytes
  pub signal : ℤ
  pub security : Security
  pub radio : Bytes

-- `Measured`.
abbrev pub is_measured : Candidate → Bool
is_measured c = ltz c.signal (pos 0)

pub record Target : Type 0 where
  pub ssid : Bytes
  pub security : Security
  pub policy : ApSelection
  pub pinned_bssid : Bytes

pub record Decision : Type 0 where
  pub ssid : Bytes
  pub bssid : Bytes
  pub pinned : Bool
  pub chosen : Option Candidate

-- `Matches`.
abbrev pub is_match : Target → Candidate → Bool
is_match t c = bytes_eq c.ssid t.ssid && accepts t.security c.security

abbrev pub needs_scan : Target → Bool
needs_scan t = elim t.policy [ ApSelection.auto ↦ false | _ ↦ true ]

-- `cmp.Compare(a, b) < 0` on strings.
unfoldable pub bytes_lt : Bytes → Bytes → Bool
bytes_lt [] [] = false
bytes_lt [] (y ∷ ys) = true
bytes_lt (x ∷ xs) [] = false
bytes_lt (x ∷ xs) (y ∷ ys) = ltb x y || (x == y && bytes_lt xs ys)

-- `byStrength(a, b) < 0`.
unfoldable pub is_stronger : Candidate → Candidate → Bool
is_stronger a b =
    if is_measured a && not (is_measured b)
    then true
    else if is_measured b && not (is_measured a)
    then false
    else if ltz b.signal a.signal
    then true
    else if ltz a.signal b.signal
    then false
    else bytes_lt a.bssid b.bssid

pub record Association : Type 0 where
  pub ssid : Bytes
  pub bssid : Bytes
  pub encrypted : Bool
  pub has_ipv4 : Bool

pub data Choice : Type 0 where
  decided : Decision → Choice
  refused : ErrorCode → Choice
  -- `matching[0]` of no element
  panics : Choice

abbrev pub unpinned : Target → Decision
unpinned t = record { ssid = t.ssid; bssid = []; pinned = false; chosen = none }

abbrev pub pin : Target → Bytes → Candidate → Decision
pin t bssid c = record { ssid = t.ssid; bssid = bssid; pinned = true; chosen = some c }

abbrev pub first_of : Target → List Candidate → Choice
first_of t [] = Choice.panics
first_of t (best ∷ rest) = Choice.decided (pin t best.bssid best)

module _ (sort : List Candidate → List Candidate) where
  abbrev pub strongest_of : Target → List Candidate → Choice
  strongest_of t [] = Choice.refused ErrorCode.not_found
  strongest_of t (c ∷ cs) = first_of t (sort (c ∷ cs))

  -- `selectStrongest`: `noCandidate` is a message, with one code.
  unfoldable pub select_strongest : Target → List Candidate → Choice
  select_strongest t cs = strongest_of t (filter (is_match t) cs)

module _ (lower trim : Bytes → Bytes) (fold_eq : Bytes → Bytes → Bool) where
  -- The loop of `selectFixed`, over the access points that match.
  unfoldable pub find_pinned : Target → Bytes → List Candidate → Choice
  find_pinned t pinned [] = Choice.refused ErrorCode.not_found
  find_pinned t pinned (c ∷ cs) =
      let rest = find_pinned t pinned cs in
      if fold_eq c.bssid pinned then Choice.decided (pin t pinned c) else rest

  -- `selectFixed`, once the pinned address is lower case: the other failures differ in the message.
  unfoldable pub select_pinned : Target → Bytes → List Candidate → Choice
  select_pinned t pinned cs =
      if is_empty pinned || bytes_eq pinned unassociated
      then Choice.refused ErrorCode.invalid_config
      else find_pinned t pinned (filter (is_match t) cs)

  abbrev pub select_fixed : Target → List Candidate → Choice
  select_fixed t cs = select_pinned t (lower (trim t.pinned_bssid)) cs

  module _ (sort : List Candidate → List Candidate) where
    abbrev pub by_policy : ApSelection → Target → List Candidate → Choice
    by_policy ApSelection.auto t cs = Choice.decided (unpinned t)
    by_policy ApSelection.strongest t cs = select_strongest sort t cs
    by_policy ApSelection.fixed t cs = select_fixed t cs
    by_policy ApSelection.other t cs = Choice.refused ErrorCode.invalid_config

    -- `Select`.
    unfoldable pub select : Target → List Candidate → Choice
    select t cs =
        if is_empty t.ssid
        then Choice.refused ErrorCode.invalid_config
        else if is_security_unknown t.security
        then Choice.refused ErrorCode.invalid_config
        else by_policy t.policy t cs

  -- `Joined`.
  abbrev pub is_joined : Association → Bool
  is_joined a =
      not (is_empty a.ssid) && (not (is_empty a.bssid) && not (fold_eq a.bssid unassociated))

  abbrev pub on_pinned : ApSelection → Target → Association → Bool
  on_pinned ApSelection.fixed t a = fold_eq a.bssid (trim t.pinned_bssid)
  on_pinned _ t a = true

  -- `Satisfied`.
  unfoldable pub is_satisfied : Target → Association → Bool
  is_satisfied t a =
      if not (is_joined a) || not a.has_ipv4
      then false
      else if not (bytes_eq a.ssid t.ssid)
      then false
      else if is_protected t.security && not a.encrypted
      then false
      else on_pinned t.policy t a

  abbrev pub should_reselect : Target → Association → Bool
  should_reselect t a = not (is_satisfied t a)
