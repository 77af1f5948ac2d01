-- ===== src/Protocol/Xxtea/Decrypt.antt =====
-- core/internal/protocol/srun/xxtea.go: what `Xencode` makes is decrypted to the message.
use smart_srun.Prelude.{
  ℕ, ◌+◌, ◌/◌, ◌%◌, ◌<◌, ◌≤◌, ◌≡◌, refl, ap, ◌∙◌, List, [], ◌∷◌, ◌++◌, arith, All, length, take,
  length-append, Bytes,
}
use smart_srun.Protocol.Xxtea.{
  word_size, pack_words, pack_with_length, unpack_words, pad_key, last_word, mix_rounds, xencode,
}
use smart_srun.Protocol.Xxtea.Rounds.{
  IsWord, IsBlock, mix_rounds-IsBlock, unmix_rounds, unmix_rounds-nil, unmix_rounds-mix_rounds,
}
use smart_srun.Protocol.Xxtea.Words.{
  IsByte, pack_words-unpack_words, take-unpack_words, pack_words-IsWord,
}

-- XXTEA backwards: the rounds are undone, and the last word says how many bytes the message has.
pub decrypt : Bytes → Bytes → Bytes
decrypt cipher key =
    let block = pack_words cipher in
    let plain = unmix_rounds (6 + 52 / length block) (pad_key (pack_words key)) 0 block in
    take (last_word 0 plain) (unpack_words plain)

last_word-append : (w n : ℕ) (ws : List ℕ) → last_word w (ws ++ n ∷ []) ≡ n
last_word-append w n [] = refl
last_word-append w n (x ∷ ws) = last_word-append x n ws

All-append : (ws : List ℕ) (n : ℕ) → All IsWord ws → IsWord n → All IsWord (ws ++ n ∷ [])
All-append [] n h k = (k, tt)
All-append (x ∷ ws) n h k = (h.0, All-append ws n h.1 k)

pack_words-nonempty : (m : ℕ) (msg : Bytes) → 1 ≤ length (pack_words (m ∷ msg))
unfolding pack_words
pack_words-nonempty m [] = omega arith
pack_words-nonempty m (b ∷ []) = omega arith
pack_words-nonempty m (b ∷ c ∷ []) = omega arith
pack_words-nonempty m (b ∷ c ∷ d ∷ rest) = omega arith

pack_with_length-IsBlock :
    (m : ℕ) (msg : Bytes) → All IsByte (m ∷ msg) → IsBlock (pack_with_length (m ∷ msg))
pack_with_length-IsBlock m msg h =
    let n = length (m ∷ msg) % word_size in
    (
      omega (arith, pack_words-nonempty m msg, length-append (pack_words (m ∷ msg)) (n ∷ [])),
      All-append (pack_words (m ∷ msg)) n (pack_words-IsWord (m ∷ msg) h) (omega arith),
    )

decrypt_lem :
    (cipher key : Bytes) (mixed plain : List ℕ)
    → pack_words cipher ≡ mixed
    → length mixed ≡ length plain
    → unmix_rounds (6 + 52 / length plain) (pad_key (pack_words key)) 0 mixed ≡ plain
    → decrypt cipher key ≡ take (last_word 0 plain) (unpack_words plain)
unfolding decrypt
decrypt_lem cipher key mixed plain packed same undone = rw (packed, same, undone) refl

-- A message of fewer than 2 ^ 32 bytes that was encrypted under a key is decrypted to itself under
-- that key, by XXTEA run backwards.
pub decrypt-xencode :
    (msg key : Bytes)
    → All IsByte msg
    → length msg < word_size
    → decrypt (xencode msg key) key ≡ msg
unfolding xencode pack_words unpack_words
decrypt-xencode [] key h short =
    decrypt_lem [] key [] [] refl refl (unmix_rounds-nil (6 + 52 / 0) (pad_key (pack_words key)) 0)
decrypt-xencode (m ∷ msg) key h short =
    let block = pack_with_length (m ∷ msg) in
    let k = pad_key (pack_words key) in
    let rounds = 6 + 52 / length block in
    let is_block = pack_with_length-IsBlock m msg h in
    let mixed = mix_rounds-IsBlock rounds k 0 block is_block in
    let packed = pack_words-unpack_words (mix_rounds rounds k 0 block) mixed.0.1 in
    let undone = unmix_rounds-mix_rounds rounds k 0 block is_block in
    let n = length (m ∷ msg) % word_size in
    let size : n ≡ length (m ∷ msg) = omega (arith, short) in
    decrypt_lem (unpack_words (mix_rounds rounds k 0 block)) key (mix_rounds rounds k 0 block) block
      packed mixed.1 undone
    ∙ ap (λ l. take l (unpack_words block)) (last_word-append 0 n (pack_words (m ∷ msg)) ∙ size)
    ∙ take-unpack_words (m ∷ msg) (n ∷ []) h
