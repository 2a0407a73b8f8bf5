-- ===== src/Base/Numerals.antt =====
-- Numerals as `%lx`, `%lu` and `%d` print them.
pub mod Count
pub mod Dec
pub mod Hex
pub mod Signed
use mm_exper.Base.{ℕ, zero, suc, ◌+◌, ◌-◌, ◌/◌, ◌%◌, ltb, if◌then◌else◌, [], ◌∷◌, ◌++◌}
use mm_exper.Base.Int.{ℤ, pos, negsuc}
use mm_exper.Base.Text.{Bytes}

-- The character for a digit below 16.
abbrev pub hex_char : ℕ → ℕ
hex_char d = if ltb d 10 then b'0' + d else b'a' + (d - 10)

-- `n` in `k` digits, the highest first.
abbrev pub hex_text : ℕ → ℕ → Bytes
hex_text zero n = []
hex_text (suc k) n = hex_text k (n / 16) ++ hex_char (n % 16) ∷ []

abbrev pub dec_text : ℕ → ℕ → Bytes
dec_text zero n = []
dec_text (suc k) n = dec_text k (n / 10) ++ (b'0' + n % 10) ∷ []

-- The digits that `n` takes in a base, at most one more than `most`.
unfoldable pub count_digits : ℕ → ℕ → ℕ → ℕ
count_digits base zero n = 1
count_digits base (suc most) n =
    let rest = count_digits base most (n / base) in if ltb n base then 1 else suc rest

-- `%lu` and `%lx` of a 64-bit number.
unfoldable pub dec_numeral : ℕ → Bytes
unfolding count_digits
dec_numeral n = dec_text (count_digits 10 19 n) n

unfoldable pub hex_numeral : ℕ → Bytes
unfolding count_digits
hex_numeral n = hex_text (count_digits 16 15 n) n

-- `%d`: -(n + 1) for `negsuc n`.
abbrev pub int_numeral : ℤ → Bytes
int_numeral (pos n) = dec_numeral n
int_numeral (negsuc n) = b'-' ∷ dec_numeral (suc n)
