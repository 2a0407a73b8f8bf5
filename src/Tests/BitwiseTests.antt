-- ===== src/Tests/BitwiseTests.antt =====
-- include/bitwise.h: the examples of its comments, and the theorems at 64-bit values.
use mm_exper.Base.{◌^◌, ◌≡◌, refl, arith, true, false}
use mm_exper.Bitwise.{align64, align64_up, align64_up_impl_1, mask_high_bits, share_highest_bit}
use mm_exper.Bitwise.Align.{align64_up-impl_1}

header_examples :
    (align64 0b01011 0b01000 ≡ 0b01000)
    × (align64_up 0b01011 0b01000 ≡ 0b10000)
    × (mask_high_bits 0b1110111 3 ≡ 0b1110000)
    × (share_highest_bit 0b1100 0b1000 ≡ true)
    × (share_highest_bit 0b0100 0b1000 ≡ false)
unfolding align64 align64_up mask_high_bits share_highest_bit
header_examples = (refl, refl, refl, refl, refl)

-- 4 and 12 have different highest bits.
four_and_twelve : share_highest_bit 0b0100 0b1100 ≡ true
unfolding share_highest_bit
four_and_twelve = refl

align64_up-impl_1_example :
    align64_up_impl_1 0xffff_ffff_ffff_ff01 (2 ^ 12) ≡ align64_up 0xffff_ffff_ffff_ff01 (2 ^ 12)
align64_up-impl_1_example = align64_up-impl_1 0xffff_ffff_ffff_ff01 12 (omega arith) (omega arith)
