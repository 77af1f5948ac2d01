-- ===== src/Protocol/Xxtea/Words.antt =====
-- core/internal/protocol/srun/xxtea.go: bytes as words and back.
use smart_srun.Prelude.{
  ℕ, ◌+◌, ◌*◌, ◌/◌, ◌%◌, ◌<◌, ◌≡◌, refl, List, [], ◌∷◌, ◌++◌, arith, All, length, take, Bytes,
}
use smart_srun.Protocol.Xxtea.{pack_words, unpack_words}
use smart_srun.Protocol.Xxtea.Rounds.{IsWord}

abbrev pub IsByte : ℕ → Type 0
IsByte b = b < 256

-- Words that were written out are read back.
pub pack_words-unpack_words : (ws : List ℕ) → All IsWord ws → pack_words (unpack_words ws) ≡ ws
unfolding pack_words unpack_words
pack_words-unpack_words [] h = refl
pack_words-unpack_words (w ∷ ws) h =
    let same : w % 256
          + w / 256 % 256 * 256
          + w / 65536 % 256 * 65536
          + w / 16777216 % 256 * 16777216
        ≡ w =
      omega (arith, h.0) in
    rw (same, pack_words-unpack_words ws h.1) refl

-- Bytes that were packed are the first ones that are written out, whatever words come after.
pub take-unpack_words :
    (bs : Bytes) (more : List ℕ)
    → All IsByte bs
    → take (length bs) (unpack_words (pack_words bs ++ more)) ≡ bs
unfolding pack_words unpack_words
take-unpack_words [] more h = refl
take-unpack_words (a ∷ []) more h = let x : a % 256 ≡ a = omega (arith, h.0) in rw x refl
take-unpack_words (a ∷ b ∷ []) more h =
    let w = a + b * 256 in
    let x : w % 256 ≡ a = omega (arith, h.0, h.1.0) in
    let y : w / 256 % 256 ≡ b = omega (arith, h.0, h.1.0) in rw (x, y) refl
take-unpack_words (a ∷ b ∷ c ∷ []) more h =
    let w = a + b * 256 + c * 65536 in
    let x : w % 256 ≡ a = omega (arith, h.0, h.1.0, h.1.1.0) in
    let y : w / 256 % 256 ≡ b = omega (arith, h.0, h.1.0, h.1.1.0) in
    let z : w / 65536 % 256 ≡ c = omega (arith, h.0, h.1.0, h.1.1.0) in rw (x, y, z) refl
take-unpack_words (a ∷ b ∷ c ∷ d ∷ rest) more h =
    let w = a + b * 256 + c * 65536 + d * 16777216 in
    let x : w % 256 ≡ a = omega (arith, h.0, h.1.0, h.1.1.0, h.1.1.1.0) in
    let y : w / 256 % 256 ≡ b = omega (arith, h.0, h.1.0, h.1.1.0, h.1.1.1.0) in
    let z : w / 65536 % 256 ≡ c = omega (arith, h.0, h.1.0, h.1.1.0, h.1.1.1.0) in
    let u : w / 16777216 % 256 ≡ d = omega (arith, h.0, h.1.0, h.1.1.0, h.1.1.1.0) in
    rw (x, y, z, u, take-unpack_words rest more h.1.1.1.1) refl

pub pack_words-IsWord : (bs : Bytes) → All IsByte bs → All IsWord (pack_words bs)
unfolding pack_words
pack_words-IsWord [] h = tt
pack_words-IsWord (a ∷ []) h = (omega (arith, h.0), tt)
pack_words-IsWord (a ∷ b ∷ []) h = (omega (arith, h.0, h.1.0), tt)
pack_words-IsWord (a ∷ b ∷ c ∷ []) h = (omega (arith, h.0, h.1.0, h.1.1.0), tt)
pack_words-IsWord (a ∷ b ∷ c ∷ d ∷ rest) h =
    (omega (arith, h.0, h.1.0, h.1.1.0, h.1.1.1.0), pack_words-IsWord rest h.1.1.1.1)
