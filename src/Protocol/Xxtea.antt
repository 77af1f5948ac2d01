-- ===== src/Protocol/Xxtea.antt =====
-- core/internal/protocol/srun/xxtea.go. A `uint32` is a number below 2 ^ 32; where `|` joins bits that
-- do not meet, it is a sum. `z` is the word before a position, after its change.
pub mod Rounds
pub mod Words
pub mod Decrypt
use Prim.Native.Nat.{bit_and, bit_xor}
use smart_srun.Prelude.{
  ℕ, zero, suc, ◌+◌, ◌*◌, ◌/◌, ◌%◌, ◌^◌, List, [], ◌∷◌, ◌++◌, if◌then◌else◌, length, get_or, Bytes,
}

abbrev pub word_size : ℕ
word_size = 2 ^ 32

abbrev pub delta : ℕ
delta = 0x9e3779b9

-- `mix`.
mix : ℕ → ℕ → ℕ → ℕ → ℕ
mix y z sum key_word =
    (bit_xor (z / 32) (y * 4 % word_size)
      + bit_xor (bit_xor (y / 8) (z * 16 % word_size)) (bit_xor sum y)
      + bit_xor key_word z)
    % word_size

-- `packWords` without the length: little-endian, the last word padded with zero bytes.
pub pack_words : Bytes → List ℕ
pack_words [] = []
pack_words (a ∷ []) = a ∷ []
pack_words (a ∷ b ∷ []) = (a + b * 256) ∷ []
pack_words (a ∷ b ∷ c ∷ []) = (a + b * 256 + c * 65536) ∷ []
pack_words (a ∷ b ∷ c ∷ d ∷ rest) = (a + b * 256 + c * 65536 + d * 16777216) ∷ pack_words rest

-- `packWords` with the length.
abbrev pub pack_with_length : Bytes → List ℕ
pack_with_length data_bytes = pack_words data_bytes ++ (length data_bytes % word_size ∷ [])

pub unpack_words : List ℕ → Bytes
unpack_words [] = []
unpack_words (w ∷ ws) =
    w % 256 ∷ w / 256 % 256 ∷ w / 65536 % 256 ∷ w / 16777216 % 256 ∷ unpack_words ws

-- The key padded with zero words to four.
abbrev pub pad_key : List ℕ → List ℕ
pad_key (a ∷ b ∷ c ∷ d ∷ rest) = a ∷ b ∷ c ∷ d ∷ rest
pad_key (a ∷ b ∷ c ∷ []) = a ∷ b ∷ c ∷ 0 ∷ []
pad_key (a ∷ b ∷ []) = a ∷ b ∷ 0 ∷ 0 ∷ []
pad_key (a ∷ []) = a ∷ 0 ∷ 0 ∷ 0 ∷ []
pad_key [] = 0 ∷ 0 ∷ 0 ∷ 0 ∷ []

-- `mix(y, z, sum, keyBlock[position&3^int(e)])`, where `e` is `sum >> 2 & 3`.
pub mix_at : List ℕ → ℕ → ℕ → ℕ → ℕ → ℕ
unfolding mix
mix_at key sum position y z =
    mix y z sum (get_or key (bit_xor (bit_and position 3) (bit_and (sum / 4) 3)) 0)

-- The words from a position on, in one round; `first` is the first word after its change.
pub mix_rest : List ℕ → ℕ → ℕ → ℕ → ℕ → List ℕ → List ℕ
mix_rest key sum first position z [] = []
mix_rest key sum first position z (x ∷ []) = (x + mix_at key sum position first z) % word_size ∷ []
mix_rest key sum first position z (x ∷ y ∷ rest) =
    let changed = (x + mix_at key sum position y z) % word_size in
    changed ∷ mix_rest key sum first (position + 1) changed (y ∷ rest)

abbrev pub last_word : ℕ → List ℕ → ℕ
last_word w [] = w
last_word w (x ∷ xs) = last_word x xs

-- One round. A block has two words or more.
pub mix_round : List ℕ → ℕ → List ℕ → List ℕ
unfolding mix_rest
mix_round key sum [] = []
mix_round key sum (x ∷ []) = (x + mix_at key sum 0 x x) % word_size ∷ []
mix_round key sum (x ∷ y ∷ rest) =
    let changed = (x + mix_at key sum 0 y (last_word y rest)) % word_size in
    changed ∷ mix_rest key sum changed 1 changed (y ∷ rest)

pub mix_rounds : ℕ → List ℕ → ℕ → List ℕ → List ℕ
mix_rounds zero key sum block = block
mix_rounds (suc rounds) key sum block =
    let next = (sum + delta) % word_size in mix_rounds rounds key next (mix_round key next block)

-- `Xencode`.
unfoldable pub xencode : Bytes → Bytes → Bytes
unfolding pack_words unpack_words mix_rounds mix_round mix_at
xencode [] key = []
xencode (m ∷ msg) key =
    let block = pack_with_length (m ∷ msg) in
    unpack_words (mix_rounds (6 + 52 / length block) (pad_key (pack_words key)) 0 block)
