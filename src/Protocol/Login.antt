-- ===== src/Protocol/Login.antt =====
-- core/internal/protocol/srun/digest.go, info.go and login.go: what a login and a logout are signed
-- with. The hashes of the standard library, its decoding of UTF-8 and its trimming are parameters.
use smart_srun.Prelude.{
  ℕ, zero, suc, ◌+◌, ◌-◌, ◌/◌, ◌%◌, Bool, false, ◌&&◌, ◌||◌, Option, none, some, List, [], ◌∷◌,
  ◌++◌, ltb, leb, ◌==◌, if◌then◌else◌, length, elem, is_empty, Bytes, codes, decimal, hex,
}
use smart_srun.Prelude.Texts.{Folding}
use smart_srun.Protocol.Base64.{encode}
use smart_srun.Protocol.Xxtea.{xencode}

pub record Hashes : Type 0 where
  -- the sum of HMAC-MD5 under a key, and that of SHA-1
  pub hmac_md5 : Bytes → Bytes → Bytes
  pub sha1 : Bytes → Bytes
  -- the code points of a text, or none where it is not valid UTF-8
  pub runes : Bytes → Option (List ℕ)

pub record Info : Type 0 where
  pub username : Bytes
  pub password : Bytes
  pub ip : Bytes
  pub acid : Bytes
  pub enc_ver : Bytes

abbrev hex_nibble : ℕ → ℕ
hex_nibble d = if ltb d 10 then d + b'0' else d - 10 + b'a'

-- `appendUnicodeEscape`.
abbrev unicode_escape : ℕ → Bytes
unicode_escape v =
    b'\\'
    ∷ b'u'
    ∷ hex_nibble (v / 4096 % 16)
    ∷ hex_nibble (v / 256 % 16)
    ∷ hex_nibble (v / 16 % 16)
    ∷ hex_nibble (v % 16)
    ∷ []

-- The loop of `appendJSONString`, on a code point.
unfoldable pub json_symbol : ℕ → Bytes
json_symbol c =
    if c == b'"'
    then b'\\' ∷ b'"' ∷ []
    else if c == b'\\'
    then b'\\' ∷ b'\\' ∷ []
    else if c == 8
    then b'\\' ∷ b'b' ∷ []
    else if c == 12
    then b'\\' ∷ b'f' ∷ []
    else if c == 10
    then b'\\' ∷ b'n' ∷ []
    else if c == 13
    then b'\\' ∷ b'r' ∷ []
    else if c == 9
    then b'\\' ∷ b't' ∷ []
    else if leb 0x20 c && leb c 0x7e
    then c ∷ []
    else if ltb c 0x10000
    then unicode_escape c
    else unicode_escape (0xd800 + (c - 0x10000) / 1024 % 1024)
      ++ unicode_escape (0xdc00 + (c - 0x10000) % 1024)

unfoldable pub json_symbols : List ℕ → Bytes
json_symbols [] = []
json_symbols (c ∷ cs) = json_symbol c ++ json_symbols cs

abbrev pub quoted : Bytes → Bytes
quoted text = (b'"' ∷ []) ++ (text ++ (b'"' ∷ []))

-- `LogoutUnbind`, `WirePasswordPrefix` and `DefaultInfoPrefix`.
abbrev pub logout_unbind : Bytes
logout_unbind = codes "1"

abbrev pub wire_password_prefix : Bytes
wire_password_prefix = codes "{MD5}"

abbrev pub default_info_prefix : Bytes
default_info_prefix = codes "SRBX1"

-- A text without its last byte.
unfoldable pub drop_last : Bytes → Bytes
drop_last [] = []
drop_last (b ∷ bs) = if is_empty bs then [] else b ∷ drop_last bs

unfoldable pub ends_with_brace : Bytes → Bool
ends_with_brace [] = false
ends_with_brace (b ∷ bs) = if is_empty bs then b == b'}' else ends_with_brace bs

-- What stands between the braces of a text that is longer than two bytes.
unfoldable pub in_braces : Bytes → Option Bytes
in_braces [] = none
in_braces (b ∷ bs) =
    if ltb 1 (length bs) && (b == b'{' && ends_with_brace bs) then some (drop_last bs) else none

module _ (folding : Folding) where
  -- The loop of `NormalizePrefix`, with the rounds that are left.
  unfoldable pub strip_braces : ℕ → Bytes → Bytes
  strip_braces zero text = text
  strip_braces (suc f) text = elim (in_braces text) [
    | none ↦ text
    | some inner ↦ strip_braces f (folding.trim_space inner)
  ]

  -- `NormalizePrefix`: a round takes two bytes or more, so the length bounds the rounds.
  unfoldable pub normalize_prefix : Bytes → Bytes → Bytes
  normalize_prefix raw fallback =
      let text = strip_braces (length raw) (folding.trim_space raw) in
      if is_empty text || (elem b'{' text || elem b'}' text) then fallback else text

  -- `EncryptedInfo`, with the table of the alphabet.
  unfoldable pub encrypted_info : Bytes → Bytes → Bytes → Bytes → Bytes
  encrypted_info marker info_json token table =
      (b'{' ∷ normalize_prefix marker default_info_prefix)
      ++ ((b'}' ∷ []) ++ encode table (xencode info_json token))

-- `ChecksumInput`: the token stands before each field.
unfoldable pub interleaved : Bytes → List Bytes → Bytes
interleaved token [] = []
interleaved token (field ∷ fields) = token ++ (field ++ interleaved token fields)

-- `LogoutSignInput`: seconds, not milliseconds.
unfoldable pub logout_sign_input : ℕ → Bytes → Bytes → Bytes
logout_sign_input seconds username ip =
    decimal seconds ++ (username ++ (ip ++ (logout_unbind ++ decimal seconds)))

module _ (hashes : Hashes) where
  -- `appendJSONString`: none where a byte is not UTF-8.
  unfoldable pub json_string : Bytes → Option Bytes
  json_string text = elim (hashes.runes text) [
    | none ↦ none
    | some cs ↦ some (quoted (json_symbols cs))
  ]

  -- The fields of the object, each after its name.
  unfoldable pub json_fields : List (Bytes × Bytes) → Option Bytes
  json_fields [] = some (codes "}")
  json_fields ((name, value) ∷ fields) = elim (json_string value) [
    | none ↦ none
    | some text ↦ elim (json_fields fields) [
      | none ↦ none
      | some rest ↦ some (name ++ (text ++ rest))
    ]
  ]

  -- `EncodeInfo`.
  unfoldable pub encode_info : Info → Option Bytes
  encode_info i = json_fields (
      (codes "{\"username\":", i.username)
      ∷ (codes ",\"password\":", i.password)
      ∷ (codes ",\"ip\":", i.ip)
      ∷ (codes ",\"acid\":", i.acid)
      ∷ (codes ",\"enc_ver\":", i.enc_ver)
      ∷ [])

  -- `HMACMD5Hex` and `SHA1Hex`.
  abbrev pub hmac_md5_hex : Bytes → Bytes → Bytes
  hmac_md5_hex token password = hex (hashes.hmac_md5 token password)

  abbrev pub sha1_hex : Bytes → Bytes
  sha1_hex text = hex (hashes.sha1 text)

  -- `Checksum`, over the fields in the order of the protocol.
  abbrev pub checksum : Bytes → List Bytes → Bytes
  checksum token fields = sha1_hex (interleaved token fields)

  -- `LogoutSign`.
  abbrev pub logout_sign : ℕ → Bytes → Bytes → Bytes
  logout_sign seconds username ip = sha1_hex (logout_sign_input seconds username ip)
