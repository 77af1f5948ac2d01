-- ===== src/Wireless/Check.antt =====
-- What a plan may write: `checkWritable` of core/internal/wireless/transaction.go, with `checkKey`,
-- `checkName` and `quoteBatch` of store.go, `listItems` of list.go and `IsLogicalInterfaceName` of
-- core/internal/openwrt/network.go. The decoder of a JSON array is a parameter.
use smart_srun.Prelude.{
  ℕ, Bool, true, false, not, ◌&&◌, ◌||◌, Option, none, some, List, [], ◌∷◌, length, any, leb, ◌==◌,
  if◌then◌else◌, Bytes, is_empty, elem,
}
use smart_srun.Wireless.Journal.{Key, is_section}
use smart_srun.Wireless.Machine.{Change}

abbrev pub name_symbol : ℕ → Bool
name_symbol c =
    (leb 97 c && leb c 122) || ((leb 65 c && leb c 90) || ((leb 48 c && leb c 57) || c == 95))

-- `IsLogicalInterfaceName`.
abbrev is_name : Bytes → Bool
is_name s = not (is_empty s) && (leb (length s) 32 && not (any (λ c. not (name_symbol c)) s))

-- `checkKey` and `checkName`.
unfoldable pub check_key : Key → Bool
check_key k = is_name k.section && (is_section k || is_name k.option)

-- What `quoteBatch` accepts.
abbrev quotable : Bytes → Bool
quotable s = not (any (λ c. elem c (0 ∷ 13 ∷ 10 ∷ [])) s)

abbrev items_ok : Option (List Bytes) → Bool
items_ok none = false
items_ok (some items) =
    not (is_empty items) && not (any (λ i. is_empty i || not (quotable i)) items)

module _ (decode : Bytes → Option (List Bytes)) where
  abbrev text_ok : Change → Bool
  text_ok c =
      if c.is_list
      then not (c.delete || is_section c.key) && items_ok (decode c.text)
      else c.delete || quotable c.text

  -- The body of the loop of `checkWritable`.
  abbrev change_ok : Change → Bool
  change_ok c = check_key c.key && (text_ok c && (c.delete || not (is_empty c.text)))

  unfoldable pub check_writable : List Change → Bool
  check_writable [] = true
  check_writable (c ∷ cs) = change_ok c && check_writable cs
