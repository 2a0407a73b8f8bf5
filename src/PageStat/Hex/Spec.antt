-- ===== src/PageStat/Hex/Spec.antt =====
-- Hexadecimal numerals described without the parser: the value of a list of digits.
use mm_exper.Base.{ℕ, ◌+◌, ◌*◌, ◌^◌, length}
use mm_exper.Base.{Option, none, some, List, [], ◌∷◌}
use mm_exper.Base.Text.{Bytes}
use mm_exper.PageStat.Hex.{hex_digit}
pub use mm_exper.Base.Numerals.{hex_char, hex_text}

-- The digits of a numeral; `none` where a character is no digit.
abbrev pub hex_digits : Bytes → Option (List ℕ)
hex_digits [] = some []
hex_digits (c ∷ cs) = elim (hex_digit c) [
  | none ↦ none
  | some d ↦ elim (hex_digits cs) [ none ↦ none | some ds ↦ some (d ∷ ds) ]
]

-- The value of digits, the highest first.
abbrev pub hex_value : List ℕ → ℕ
hex_value [] = 0
hex_value (d ∷ ds) = d * 16 ^ length ds + hex_value ds
