-- ===== src/Prelude/Numerals.antt =====
-- Go's strconv and encoding/hex, as far as the program uses them.
use Prim.Native.Nat.{ℕ, zero, suc, ◌+◌, ◌-◌, ◌/◌, ◌%◌}
use mathlib.Core.List.{[], ◌∷◌, ◌++◌}
use smart_srun.Prelude.Tests.{ltb, if◌then◌else◌}
use smart_srun.Prelude.Strings.{Bytes}

decimal_digits : ℕ → ℕ → Bytes
decimal_digits zero n = []
decimal_digits (suc f) n =
    let rest = decimal_digits f (n / 10) in
    if ltb n 10 then (n + b'0') ∷ [] else rest ++ ((n % 10 + b'0') ∷ [])

-- `strconv.FormatUint(n, 10)`: a number below 10 ^ (n + 1) has at most n + 1 digits.
pub decimal : ℕ → Bytes
unfolding decimal_digits
decimal n = decimal_digits (suc n) n

-- A lowercase hexadecimal digit.
abbrev hex_digit : ℕ → ℕ
hex_digit d = if ltb d 10 then d + b'0' else d - 10 + b'a'

-- `hex.EncodeToString`.
pub hex : Bytes → Bytes
hex [] = []
hex (b ∷ bs) = hex_digit (b / 16) ∷ hex_digit (b % 16) ∷ hex bs
