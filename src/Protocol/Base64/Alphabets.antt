-- ===== src/Protocol/Base64/Alphabets.antt =====
-- core/internal/protocol/srun/base64.go: which tables `NewAlphabet` takes.
use smart_srun.Prelude.{
  ℕ, ◌+◌, ◌≤◌, ◌≡◌, ◌≢◌, ◌↔◌, false, none, List, [], ◌∷◌, length, elem, Bytes, arith, All,
}
use smart_srun.Protocol.Base64.{pad_char, alphabet_size, check_symbols, new_alphabet}

-- A symbol that a query string can hold and that is not the padding.
abbrev pub IsSymbol : ℕ → Type 0
IsSymbol n = (0x21 ≤ n) × (n ≤ 0x7e) × (n ≢ pad_char)

-- No symbol stands twice, nor in `seen`.
abbrev pub IsFresh : List ℕ → Bytes → Type 0
IsFresh seen [] = Unit
IsFresh seen (s ∷ rest) = (elem s seen ≡ false) × IsFresh (s ∷ seen) rest

check_symbols_iff :
    (index : ℕ) (seen : List ℕ) (table : Bytes)
    → (check_symbols index seen table ≡ none) ↔ (All IsSymbol table × IsFresh seen table)
unfolding check_symbols
check_symbols_iff index seen [] = ground arith
check_symbols_iff index seen (s ∷ rest) =
    ground (arith, check_symbols_iff (index + 1) (s ∷ seen) rest)

-- `NewAlphabet` takes a table exactly if it has 64 symbols, all of them visible, none the padding,
-- and none twice.
pub new_alphabet_iff :
    (table : Bytes)
    → (new_alphabet table ≡ none)
      ↔ ((length table ≡ alphabet_size) × All IsSymbol table × IsFresh [] table)
unfolding new_alphabet
new_alphabet_iff table = ground (arith, check_symbols_iff 0 [] table)
