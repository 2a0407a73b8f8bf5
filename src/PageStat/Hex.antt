-- ===== src/PageStat/Hex.antt =====
-- pagestat/pagestat.c: `parse_hex` and `extract_address_range`.
pub mod Spec
pub mod Laws
use mm_exper.Base.{
  ℕ, ◌+◌, ◌-◌, Bool, ◌&&◌, ◌==◌, leb, if◌then◌else◌, Option, none, some, List, [], ◌∷◌,
}
use mm_exper.Base.Word.{u64, add64, invalid_value, ◌<<<◌}
use mm_exper.Base.Text.{Bytes}

-- What one character adds to `ret`; `none` is the "Invalid char" branch.
unfoldable pub hex_digit : ℕ → Option ℕ
hex_digit chr =
    if leb b'a' chr && leb chr b'f'
    then some (10 + chr - b'a')
    else if leb b'A' chr && leb chr b'F'
    then some (10 + chr - b'A')
    else if leb b'0' chr && leb chr b'9'
    then some (chr - b'0')
    else none

-- The loop from `ret` on.
unfoldable pub parse_hex_from : ℕ → Bytes → ℕ
parse_hex_from ret [] = ret
parse_hex_from ret (chr ∷ str) = elim (hex_digit chr) [
  | none ↦ invalid_value
  | some d ↦ parse_hex_from (add64 (ret <<< 4) d) str
]

unfoldable pub parse_hex : Bytes → ℕ
unfolding parse_hex_from
parse_hex str = parse_hex_from 0 str

-- The text before the first '-' and the text behind it; `none` if there is no '-'.
unfoldable pub split_at_dash : Bytes → Option (Bytes × Bytes)
split_at_dash [] = none
split_at_dash (chr ∷ str) =
    let later : Option (Bytes × Bytes) = elim (split_at_dash str) [
      | none ↦ none
      | some (a, b) ↦ some (chr ∷ a, b)
    ] in
    if chr == b'-' then some ([], str) else later

-- `none` is `return false`.
unfoldable pub extract_address_range : Bytes → Option (ℕ × ℕ)
extract_address_range str = elim (split_at_dash str) [
  | none ↦ none
  | some (a, b) ↦
      if parse_hex a == invalid_value
      then none
      else if parse_hex b == invalid_value
      then none
      else some (parse_hex a, parse_hex b)
]
