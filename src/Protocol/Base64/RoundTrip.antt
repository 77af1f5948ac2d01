-- ===== src/Protocol/Base64/RoundTrip.antt =====
-- core/internal/protocol/srun/base64.go: the encoding is reversible.
use smart_srun.Prelude.{
  ℕ, zero, suc, ◌+◌, ◌*◌, ◌/◌, ◌%◌, ◌<◌, ◌≡◌, ◌≢◌, refl, Bool, true, false, ◌&&◌, Option, none,
  some, List, [], ◌∷◌, ◌++◌, ◌==◌, if◌then◌else◌, length, elem, get_or, Bytes, arith, All,
}
use smart_srun.Protocol.Base64.{pad_char, new_alphabet, symbol_of, encode}
use smart_srun.Protocol.Base64.Alphabets.{IsSymbol, IsFresh, new_alphabet_iff}

-- The place of a symbol in a table.
abbrev index_of : Bytes → ℕ → Option ℕ
index_of [] s = none
index_of (x ∷ xs) s =
    if x == s then some 0 else (elim (index_of xs s) [ none ↦ none | some i ↦ some (suc i) ])

-- The symbol at a place is none of the seen ones.
fresh_not_seen :
    (seen : List ℕ) (table : Bytes) (n : ℕ)
    → IsFresh seen table
    → n < length table
    → elem (get_or table n 0) seen ≡ false
fresh_not_seen seen [] n f h = absurd (omega arith)
fresh_not_seen seen (x ∷ xs) zero f h = f.0
fresh_not_seen seen (x ∷ xs) (suc n) f h =
    ground (arith, fresh_not_seen (x ∷ seen) xs n f.1 (omega arith))

index_of-get_or :
    (seen : List ℕ) (table : Bytes) (n : ℕ)
    → IsFresh seen table
    → n < length table
    → index_of table (get_or table n 0) ≡ some n
index_of-get_or seen [] n f h = absurd (omega arith)
index_of-get_or seen (x ∷ xs) zero f h = ground arith
index_of-get_or seen (x ∷ xs) (suc n) f h = ground (
  arith,
  fresh_not_seen (x ∷ seen) xs n f.1 (omega arith),
  index_of-get_or (x ∷ seen) xs n f.1 (omega arith),
)

get_or-symbol :
    (table : Bytes) (n : ℕ) → All IsSymbol table → n < length table → get_or table n 0 ≢ pad_char
get_or-symbol [] n v h = absurd (omega arith)
get_or-symbol (x ∷ xs) zero v h = v.0.2
get_or-symbol (x ∷ xs) (suc n) v h = get_or-symbol xs n v.1 (omega arith)

-- What an alphabet is for: its symbols have their places, and are not the padding.
record IsAlphabet (table : Bytes) : Type 0 where
  place : (n : ℕ) → n < 64 → index_of table (get_or table n 0) ≡ some n
  unpadded : (n : ℕ) → n < 64 → (get_or table n 0 == pad_char) ≡ false

alphabet_lem : (table : Bytes) → new_alphabet table ≡ none → IsAlphabet table
alphabet_lem table ok =
    let valid = (new_alphabet_iff table).0 ok in
    record {
      place = λ n h. index_of-get_or [] table n valid.2 (omega (arith, valid.0));
      unpadded = λ n h. ground (arith, get_or-symbol table n valid.1 (omega (arith, valid.0)));
    }

-- The bytes of two, three or four six-bit groups.
abbrev first_byte : ℕ → ℕ → ℕ
first_byte i j = i * 4 + j / 16

abbrev second_byte : ℕ → ℕ → ℕ
second_byte j k = j % 16 * 16 + k / 4

abbrev third_byte : ℕ → ℕ → ℕ
third_byte k l = k % 4 * 64 + l

-- Decoding after RFC 4648, with the alphabet's table: the bytes of one quantum, by whether the last
-- two symbols are padding, and the last one.
abbrev assemble : Bool → Bool → Option ℕ → Option ℕ → Option ℕ → Option ℕ → Option Bytes
assemble true _ (some i) (some j) k l = some (first_byte i j ∷ [])
assemble false true (some i) (some j) (some k) l = some (first_byte i j ∷ second_byte j k ∷ [])
assemble false false (some i) (some j) (some k) (some l) =
    some (first_byte i j ∷ second_byte j k ∷ third_byte k l ∷ [])
assemble _ _ _ _ _ _ = none

abbrev decode_quantum : Bytes → ℕ → ℕ → ℕ → ℕ → Option Bytes
decode_quantum table w x y z =
    assemble (y == pad_char && z == pad_char) (z == pad_char) (index_of table w) (index_of table x)
      (index_of table y) (index_of table z)

abbrev append_quantum : Option Bytes → Option Bytes → Option Bytes
append_quantum (some bs) (some more) = some (bs ++ more)
append_quantum _ _ = none

pub decode : Bytes → Bytes → Option Bytes
decode table [] = some []
decode table (w ∷ x ∷ y ∷ z ∷ rest) =
    append_quantum (decode_quantum table w x y z) (decode table rest)
decode table _ = none

abbrev IsByte : ℕ → Type 0
IsByte b = b < 256

module _ (table : Bytes) (v : IsAlphabet table) where
  decode_three :
      (i j k l : ℕ)
      → i < 64
      → j < 64
      → k < 64
      → l < 64
      → decode_quantum table
          (symbol_of table i)
          (symbol_of table j)
          (symbol_of table k)
          (symbol_of table l)
        ≡ some (first_byte i j ∷ second_byte j k ∷ third_byte k l ∷ [])
  decode_three i j k l hi hj hk hl =
      rw (v.place i hi, v.place j hj, v.place k hk, v.place l hl, v.unpadded l hl)
        (ground (arith, v.unpadded k hk))

  decode_two :
      (i j k : ℕ)
      → i < 64
      → j < 64
      → k < 64
      → decode_quantum table (symbol_of table i) (symbol_of table j) (symbol_of table k) pad_char
        ≡ some (first_byte i j ∷ second_byte j k ∷ [])
  decode_two i j k hi hj hk = rw (v.place i hi, v.place j hj, v.place k hk, v.unpadded k hk) refl

  decode_one :
      (i j : ℕ)
      → i < 64
      → j < 64
      → decode_quantum table (symbol_of table i) (symbol_of table j) pad_char pad_char
        ≡ some (first_byte i j ∷ [])
  decode_one i j hi hj = rw (v.place i hi, v.place j hj) refl

  -- What was encoded decodes to itself.
  decode-encode_from : (src : Bytes) → All IsByte src → decode table (encode table src) ≡ some src
  unfolding decode encode
  decode-encode_from [] h = refl
  decode-encode_from (a ∷ []) h =
      let g = a * 65536 in
      let q = decode_one (g / 262144) (g / 4096 % 64) (omega (arith, h)) (omega arith) in
      let x : first_byte (g / 262144) (g / 4096 % 64) ≡ a = omega arith in rw (q, x) refl
  decode-encode_from (a ∷ b ∷ []) h =
      let g = a * 65536 + b * 256 in
      let q =
        decode_two (g / 262144) (g / 4096 % 64) (g / 64 % 64) (omega (arith, h)) (omega arith)
          (omega arith) in
      let x : first_byte (g / 262144) (g / 4096 % 64) ≡ a = omega arith in
      let y : second_byte (g / 4096 % 64) (g / 64 % 64) ≡ b = omega arith in rw (q, x, y) refl
  decode-encode_from (a ∷ b ∷ c ∷ rest) h =
      let g = a * 65536 + b * 256 + c in
      let q =
        decode_three (g / 262144) (g / 4096 % 64) (g / 64 % 64) (g % 64) (omega (arith, h))
          (omega arith) (omega arith) (omega arith) in
      let x : first_byte (g / 262144) (g / 4096 % 64) ≡ a = omega arith in
      let y : second_byte (g / 4096 % 64) (g / 64 % 64) ≡ b = omega arith in
      let z : third_byte (g / 64 % 64) (g % 64) ≡ c = omega arith in
      rw (q, decode-encode_from rest h.1.1.1, x, y, z) refl

-- What an alphabet that `NewAlphabet` takes makes of a sequence of bytes is decoded to that sequence.
pub decode-encode :
    (table src : Bytes)
    → new_alphabet table ≡ none
    → All IsByte src
    → decode table (encode table src) ≡ some src
decode-encode table src ok bytes = decode-encode_from table (alphabet_lem table ok) src bytes
