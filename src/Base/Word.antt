-- ===== src/Base/Word.antt =====
-- `uint64_t` as the native numbers below `2 ^ 64`: casts, wrap-around, shifts, `~`, and the
-- constants that the sources define for themselves.
use mm_exper.Base.{ℕ, ◌+◌, ◌-◌, ◌*◌, ◌/◌, ◌%◌, ◌^◌}

abbrev pub u64_mod : ℕ
u64_mod = 2 ^ 64

abbrev pub u64 : ℕ → ℕ
u64 n = n % u64_mod

-- `a + b` and `a - b`; 2 ^ 64 is added first since `-` stops at 0.
abbrev pub add64 : ℕ → ℕ → ℕ
add64 a b = u64 (a + b)

abbrev pub sub64 : ℕ → ℕ → ℕ
sub64 a b = u64 (a + u64_mod - b)

-- Unary `-a`.
abbrev pub neg64 : ℕ → ℕ
neg64 a = u64 (u64_mod - a)

-- `~a`.
abbrev pub bit_not : ℕ → ℕ
bit_not a = u64_mod - 1 - a

infixl 75 ◌<<<◌ ◌>>>◌
abbrev pub ◌<<<◌ : ℕ → ℕ → ℕ
a <<< k = u64 (a * 2 ^ k)

abbrev pub ◌>>>◌ : ℕ → ℕ → ℕ
a >>> k = a / 2 ^ k

-- `BIT_MASK` and `BIT_MASK_LOWER`, for a bit below 64.
abbrev pub bit_mask : ℕ → ℕ
bit_mask bit = 1 <<< bit

abbrev pub bit_mask_lower : ℕ → ℕ
bit_mask_lower bit = sub64 (bit_mask bit) 1

-- `INVALID_VALUE`, all ones.
abbrev pub invalid_value : ℕ
invalid_value = bit_not 0
