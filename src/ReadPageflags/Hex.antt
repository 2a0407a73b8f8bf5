-- ===== src/ReadPageflags/Hex.antt =====
-- read-pageflags/read-pageflags.c: this file's own `parse_hex` and `extract_address_range`.
use mm_exper.Base.{ℕ, ◌+◌, ◌-◌, ◌&&◌, ◌==◌, leb, if◌then◌else◌}
use mm_exper.Base.{Option, none, some, [], ◌∷◌}
use mm_exper.Base.Word.{add64, invalid_value, ◌<<<◌}
use mm_exper.Base.Text.{Bytes}

-- One round of the loop: `ret` behind the character; `none` is the "Invalid char" branch.
unfoldable pub add_digit : ℕ → ℕ → Option ℕ
add_digit ret chr =
    let shifted = ret <<< 4 in
    if leb b'a' chr && leb chr b'f'
    then some (add64 shifted (10 + chr - b'a'))
    else if leb b'A' chr && leb chr b'F'
    then some (add64 shifted (10 + chr - b'A'))
    else if leb b'0' chr && leb chr b'9'
    then some (add64 shifted (chr - b'0'))
    else none

-- The loop from `ret` on.
unfoldable pub parse_hex_loop : ℕ → Bytes → ℕ
parse_hex_loop ret [] = ret
parse_hex_loop ret (chr ∷ str) = elim (add_digit ret chr) [
  | none ↦ invalid_value
  | some next ↦ parse_hex_loop next str
]

unfoldable pub parse_hex : Bytes → ℕ
unfolding parse_hex_loop
parse_hex str = parse_hex_loop 0 str

-- The loop over `ptr`: the text in front of the first '-' and the text behind it; `none` if the end is
-- reached.
unfoldable pub find_dash : Bytes → Option (Bytes × Bytes)
find_dash [] = none
find_dash (chr ∷ str) =
    let later : Option (Bytes × Bytes) = elim (find_dash str) [
      | none ↦ none
      | some (a, b) ↦ some (chr ∷ a, b)
    ] in
    if chr == b'-' then some ([], str) else later

-- `none` is `return false`, before anything is stored.
unfoldable pub extract_address_range : Bytes → Option (ℕ × ℕ)
extract_address_range str = elim (find_dash str) [
  | none ↦ none
  | some (a, b) ↦
      if parse_hex a == invalid_value
      then none
      else if parse_hex b == invalid_value
      then none
      else some (parse_hex a, parse_hex b)
]
