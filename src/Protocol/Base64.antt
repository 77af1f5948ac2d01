-- ===== src/Protocol/Base64.antt =====
-- core/internal/protocol/srun/base64.go: validated alphabets, and the encoder.
pub mod Alphabets
pub mod RoundTrip
use smart_srun.Prelude.{
  ℕ, ◌+◌, ◌*◌, ◌/◌, ◌%◌, Bool, true, false, not, ◌||◌, Option, none, some, List, [], ◌∷◌, ◌++◌, ltb,
  ◌==◌, if◌then◌else◌, length, elem, get_or, Bytes, codes,
}

-- `PadChar`.
abbrev pub pad_char : ℕ
pad_char = b'='

abbrev pub alphabet_size : ℕ
alphabet_size = 64

abbrev pub default_alphabet_table : Bytes
default_alphabet_table = codes "LVoJPiCN2R8G90yg+hmFHuacZ1OWMnrsSTXkYpUq/3dlbfKwv6xztjI7DeBE45QA"

pub data AlphabetFault : Type 0 where
  wrong_length : ℕ → AlphabetFault
  not_visible : ℕ → AlphabetFault
  is_padding : AlphabetFault
  repeated : ℕ → AlphabetFault

-- The loop of `NewAlphabet`, from an index, with the symbols seen so far.
pub check_symbols : ℕ → List ℕ → Bytes → Option AlphabetFault
check_symbols index seen [] = none
check_symbols index seen (symbol ∷ rest) =
    let later = check_symbols (index + 1) (symbol ∷ seen) rest in
    if ltb symbol 0x21 || ltb 0x7e symbol
    then some (AlphabetFault.not_visible index)
    else if symbol == pad_char
    then some AlphabetFault.is_padding
    else if elem symbol seen
    then some (AlphabetFault.repeated symbol)
    else later

-- `NewAlphabet`: the fault, or none where the table is an alphabet.
unfoldable pub new_alphabet : Bytes → Option AlphabetFault
unfolding check_symbols
new_alphabet table =
    if not (length table == alphabet_size)
    then some (AlphabetFault.wrong_length (length table))
    else check_symbols 0 [] table

-- The symbol of a six-bit group; a table has 64 symbols, so the default is not used.
abbrev pub symbol_of : Bytes → ℕ → ℕ
symbol_of table n = get_or table n 0

-- `Encode`: `g >> k & 63` is `g / 2 ^ k % 64`.
unfoldable pub encode : Bytes → Bytes → Bytes
encode table [] = []
encode table (a ∷ []) =
    let group = a * 65536 in
    symbol_of table (group / 262144)
    ∷ symbol_of table (group / 4096 % 64)
    ∷ pad_char
    ∷ pad_char
    ∷ []
encode table (a ∷ b ∷ []) =
    let group = a * 65536 + b * 256 in
    symbol_of table (group / 262144)
    ∷ symbol_of table (group / 4096 % 64)
    ∷ symbol_of table (group / 64 % 64)
    ∷ pad_char
    ∷ []
encode table (a ∷ b ∷ c ∷ rest) =
    let group = a * 65536 + b * 256 + c in
    symbol_of table (group / 262144)
    ∷ symbol_of table (group / 4096 % 64)
    ∷ symbol_of table (group / 64 % 64)
    ∷ symbol_of table (group % 64)
    ∷ encode table rest
