-- ===== src/Examples/Codecs.antt =====
-- The codecs at concrete inputs.
use smart_srun.Prelude.{◌≡◌, ◌↔◌, refl, none, some, [], ◌∷◌, length, All, codes, arith}
use smart_srun.Protocol.Base64.{alphabet_size, default_alphabet_table, new_alphabet, encode}
use smart_srun.Protocol.Base64.Alphabets.{IsSymbol, IsFresh, new_alphabet_iff}
use smart_srun.Protocol.Base64.RoundTrip.{decode, decode-encode}
use smart_srun.Protocol.Xxtea.{xencode, mix_rounds}
use smart_srun.Protocol.Xxtea.Rounds.{unmix_rounds, unmix_rounds-mix_rounds}
use smart_srun.Protocol.Xxtea.Decrypt.{decrypt, decrypt-xencode}

new_alphabet_iff_test : (new_alphabet default_alphabet_table ≡ none) ↔ (
    (length default_alphabet_table ≡ alphabet_size)
    × All IsSymbol default_alphabet_table
    × IsFresh [] default_alphabet_table)
new_alphabet_iff_test = new_alphabet_iff default_alphabet_table

decode-encode_example :
    decode default_alphabet_table (encode default_alphabet_table (codes "srun"))
    ≡ some (codes "srun")
unfolding new_alphabet
decode-encode_example =
    decode-encode default_alphabet_table (codes "srun") refl
      (omega arith, (omega arith, (omega arith, (omega arith, tt))))

-- The words of a test vector: `Xencode("a", "k")`.
unmix_rounds-mix_rounds_test :
    unmix_rounds 2 (107 ∷ 0 ∷ 0 ∷ 0 ∷ []) 0 (mix_rounds 2 (107 ∷ 0 ∷ 0 ∷ 0 ∷ []) 0 (97 ∷ 1 ∷ []))
    ≡ 97 ∷ 1 ∷ []
unmix_rounds-mix_rounds_test =
    unmix_rounds-mix_rounds 2 (107 ∷ 0 ∷ 0 ∷ 0 ∷ []) 0 (97 ∷ 1 ∷ [])
      (omega arith, (omega arith, (omega arith, tt)))

decrypt-xencode_example :
    decrypt (xencode (codes "user") (codes "key")) (codes "key") ≡ codes "user"
decrypt-xencode_example =
    decrypt-xencode (codes "user") (codes "key")
      (omega arith, (omega arith, (omega arith, (omega arith, tt)))) (omega arith)

-- Vectors of core/testdata/protocol.
encode_vector : encode default_alphabet_table (codes "a") ≡ codes "Z+=="
unfolding encode
encode_vector = refl

xencode_vector :
    xencode (codes "a") (codes "token") ≡ 44 ∷ 214 ∷ 69 ∷ 87 ∷ 134 ∷ 53 ∷ 147 ∷ 115 ∷ []
unfolding xencode
xencode_vector = refl

xencode_long_vector :
    xencode (codes "abcde") (codes "token")
    ≡ 219 ∷ 89 ∷ 158 ∷ 47 ∷ 51 ∷ 145 ∷ 43 ∷ 49 ∷ 143 ∷ 42 ∷ 31 ∷ 98 ∷ []
unfolding xencode
xencode_long_vector = refl
