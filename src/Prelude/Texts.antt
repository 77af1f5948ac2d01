-- ===== src/Prelude/Texts.antt =====
-- Go's strings package, as far as the program uses it on ASCII bytes, and the parts that stand on
-- Unicode's tables as parameters.
use Prim.Native.Nat.{ℕ}
use mathlib.Core.Bool.{Bool, true, false, ◌&&◌, ◌||◌}
use mathlib.Core.List.{List, [], ◌∷◌}
use mathlib.Core.Option.{Option, none, some}
use smart_srun.Prelude.Tests.{◌==◌, if◌then◌else◌}
use smart_srun.Prelude.Lists.{elem}
use smart_srun.Prelude.Strings.{Bytes, is_empty}

-- `TrimSpace`, `ToLower` and `EqualFold`.
pub record Folding : Type 0 where
  pub trim_space : Bytes → Bytes
  pub to_lower : Bytes → Bytes
  pub equal_fold : Bytes → Bytes → Bool

-- `HasPrefix`.
unfoldable pub starts_with : Bytes → Bytes → Bool
starts_with text [] = true
starts_with [] (p ∷ ps) = false
starts_with (t ∷ ts) (p ∷ ps) = t == p && starts_with ts ps

-- `Contains`.
unfoldable pub contains_text : Bytes → Bytes → Bool
contains_text [] part = is_empty part
contains_text (t ∷ ts) part = starts_with (t ∷ ts) part || contains_text ts part

-- `CutPrefix`: what stands after the prefix, where there is one.
unfoldable pub cut_prefix : Bytes → Bytes → Option Bytes
cut_prefix text [] = some text
cut_prefix [] (p ∷ ps) = none
cut_prefix (t ∷ ts) (p ∷ ps) = if t == p then cut_prefix ts ps else none

-- `TrimLeft` and `TrimRight` by a set of bytes.
unfoldable pub trim_left : List ℕ → Bytes → Bytes
trim_left set [] = []
trim_left set (b ∷ bs) = let rest = trim_left set bs in if elem b set then rest else b ∷ bs

unfoldable pub trim_right : List ℕ → Bytes → Bytes
trim_right set [] = []
trim_right set (b ∷ bs) =
    let rest = trim_right set bs in if elem b set && is_empty rest then [] else b ∷ rest

-- The text before the first occurrence of a byte, and the text after it, or none.
unfoldable pub cut : ℕ → Bytes → Option (Bytes × Bytes)
cut sep [] = none
cut sep (b ∷ bs) = elim (cut sep bs) [
  | none ↦ if b == sep then some ([], bs) else none
  | some (before, after) ↦ if b == sep then some ([], bs) else some (b ∷ before, after)
]
