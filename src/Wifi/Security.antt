-- ===== src/Wifi/Security.antt =====
-- core/internal/wifi/security.go: a set of kinds of encryption, as its five bits. The case folding and
-- the trimming of Unicode text are parameters.
use smart_srun.Prelude.{
  ℕ, Bool, true, false, ◌||◌, ◌&&◌, not, List, [], ◌∷◌, ◌==◌, if◌then◌else◌, any, is_empty, Bytes,
  bytes_eq, codes,
}

pub record Security : Type 0 where
  pub open_bit : Bool
  pub wep_bit : Bool
  pub psk_bit : Bool
  pub sae_bit : Bool
  pub enterprise_bit : Bool

abbrev pub security_unknown : Security
security_unknown = record {
  open_bit = false;
  wep_bit = false;
  psk_bit = false;
  sae_bit = false;
  enterprise_bit = false;
}

abbrev pub security_open : Security
security_open = record security_unknown { open_bit = true }

abbrev pub security_wep : Security
security_wep = record security_unknown { wep_bit = true }

abbrev pub security_psk : Security
security_psk = record security_unknown { psk_bit = true }

abbrev pub security_sae : Security
security_sae = record security_unknown { sae_bit = true }

abbrev pub security_enterprise : Security
security_enterprise = record security_unknown { enterprise_bit = true }

-- `s | t`.
abbrev pub both : Security → Security → Security
both s t = record {
  open_bit = s.open_bit || t.open_bit;
  wep_bit = s.wep_bit || t.wep_bit;
  psk_bit = s.psk_bit || t.psk_bit;
  sae_bit = s.sae_bit || t.sae_bit;
  enterprise_bit = s.enterprise_bit || t.enterprise_bit;
}

-- `Protected`.
abbrev pub is_protected : Security → Bool
is_protected s = s.wep_bit || (s.psk_bit || (s.sae_bit || s.enterprise_bit))

-- `s == SecurityUnknown`.
abbrev pub is_security_unknown : Security → Bool
is_security_unknown s = not (s.open_bit || is_protected s)

-- `Accepts`.
abbrev pub accepts : Security → Security → Bool
accepts s t =
    (s.open_bit && t.open_bit)
    || ((s.wep_bit && t.wep_bit)
        || ((s.psk_bit && t.psk_bit)
            || ((s.sae_bit && t.sae_bit) || (s.enterprise_bit && t.enterprise_bit))))

-- `value[:cut]`, at the first plus sign.
unfoldable pub before_plus : Bytes → Bytes
before_plus [] = []
before_plus (c ∷ cs) = let rest = before_plus cs in if c == 43 then [] else c ∷ rest

abbrev pub is_one_of : Bytes → List Bytes → Bool
is_one_of s names = any (bytes_eq s) names

-- The switch of `ParseSecurity`.
unfoldable pub classify : Bytes → Security
classify v =
    if is_one_of v ([] ∷ codes "none" ∷ codes "owe" ∷ [])
    then security_open
    else if is_one_of v (codes "wep" ∷ codes "wep-open" ∷ codes "wep-shared" ∷ [])
    then security_wep
    else if is_one_of v (codes "psk" ∷ codes "psk2" ∷ codes "psk-mixed" ∷ [])
    then security_psk
    else if is_one_of v (codes "sae" ∷ [])
    then security_sae
    else if is_one_of v (codes "sae-mixed" ∷ [])
    then both security_psk security_sae
    else if is_one_of v
        (codes "wpa" ∷ codes "wpa2" ∷ codes "wpa-mixed" ∷ codes "wpa3" ∷ codes "wpa3-mixed" ∷ [])
    then security_enterprise
    else security_unknown

module _ (lower trim : Bytes → Bytes) where
  unfoldable pub parse_security : Bytes → Security
  parse_security encryption = classify (before_plus (lower (trim encryption)))

  -- The switch of `ClassifyScan` on one suite.
  unfoldable pub suite : Bytes → Security
  suite v =
      if is_one_of v (codes "psk" ∷ [])
      then security_psk
      else if is_one_of v (codes "sae" ∷ [])
      then security_sae
      else if is_one_of v (codes "802.1x" ∷ codes "8021x" ∷ codes "eap" ∷ [])
      then security_enterprise
      else if is_one_of v (codes "none" ∷ codes "open" ∷ codes "owe" ∷ [])
      then security_open
      else security_unknown

  unfoldable pub suites : List Bytes → Security
  suites [] = security_unknown
  suites (x ∷ xs) = both (suite (lower (trim x))) (suites xs)

  unfoldable pub classify_scan : Bool → List Bytes → List ℕ → Security
  classify_scan enabled names versions =
      if not enabled
      then security_open
      else if not (is_security_unknown (suites names))
      then suites names
      else if is_empty versions
      then security_wep
      else security_unknown
