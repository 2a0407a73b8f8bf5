-- ===== src/Bitwise.antt =====
-- include/bitwise.h: alignment and single-bit helpers on `uint64_t`.
pub mod Align
pub mod Bits
use mm_exper.Base.{ℕ, ◌+◌, Bool, not, leb, ◌==◌, bit_and, bit_xor}
use mm_exper.Base.Word.{u64, add64, sub64, neg64, bit_not, ◌<<<◌}

unfoldable pub align64 : ℕ → ℕ → ℕ
align64 value align_to = bit_and value (bit_not (sub64 align_to 1))

-- `align64_up` has two bodies; the header builds the second, `ALIGN_UP_IMPL_2`.
pub align64_up_impl_1 : ℕ → ℕ → ℕ
align64_up_impl_1 value align_to = align64 (sub64 (add64 value align_to) 1) align_to

unfoldable pub align64_up : ℕ → ℕ → ℕ
align64_up value align_to = add64 value (bit_and (neg64 value) (sub64 align_to 1))

-- For a bit below 64.
pub is_bit_set : ℕ → ℕ → Bool
is_bit_set value bit = not (bit_and value (1 <<< bit) == 0)

unfoldable pub mask_high_bits : ℕ → ℕ → ℕ
mask_high_bits value bit = bit_and value (neg64 (1 <<< bit))

pub clear_lowest_bit : ℕ → ℕ
clear_lowest_bit value = sub64 value (bit_and value (neg64 value))

unfoldable pub share_highest_bit : ℕ → ℕ → Bool
share_highest_bit a b = leb (bit_xor a b) b
