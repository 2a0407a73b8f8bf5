-- ===== src/PageStat/Entry/Laws.antt =====
-- The bits of a pagemap entry as digits of a number, and when an entry has a frame number.
use mm_exper.Base.{ℕ, ◌*◌, ◌/◌, ◌%◌, ◌^◌, ◌<◌, ◌≡◌, ◌↔◌, ap, arith}
use mm_exper.Base.{bit_and, true, false, ◌==◌}
use mm_exper.Base.Masks.{two_pow_pos, two_pow_lt, bit_and-two_pow, bit_and-ones, bit_and-high}
use mm_exper.Base.Word.{invalid_value, bit_not, ◌>>>◌, bit_mask}
use mm_exper.PageStat.Entry.{check_bit, has_pfn, get_pfn, swap_type, swap_offset, pfn_mask}

-- `CHECK_BIT` reads binary digit `bit`.
pub check_bit-eq : (v bit : ℕ) → bit < 64 → check_bit v bit ≡ (v / 2 ^ bit % 2 == 1)
unfolding check_bit
check_bit-eq v bit h =
    ground (
      arith,
      ap (bit_and v) (in_range bit h),
      in_range bit h,
      bit_and-two_pow bit v,
      two_pow_pos bit,
    )
  where
    in_range : (bit : ℕ) → bit < 64 → bit_mask bit ≡ 2 ^ bit
    in_range bit h = omega (arith, two_pow_lt bit h)

pub and-pfn_mask : (v : ℕ) → bit_and v pfn_mask ≡ v % 2 ^ 55
and-pfn_mask v = bit_and-ones 55 v

-- `val & ~PAGEMAP_PFN_MASK` keeps the flags, bits 55 and up.
pub and-not_pfn_mask : (v : ℕ) → v < 2 ^ 64 → bit_and v (bit_not pfn_mask) ≡ v / 2 ^ 55 * 2 ^ 55
and-not_pfn_mask v h = bit_and-high 55 9 v h

-- An entry has a frame number exactly when it is present and not swapped out, and the number is its
-- low 55 bits; so `get_pfn` never gives `INVALID_VALUE` for an entry that has one.
pub get_pfn_lem :
    (v : ℕ)
    → ((has_pfn v ≡ true) ↔ ((v / 2 ^ 62 % 2 ≡ 0) × (v / 2 ^ 63 % 2 ≡ 1)))
      × (has_pfn v ≡ true → get_pfn v ≡ v % 2 ^ 55)
      × ((get_pfn v ≡ invalid_value) ↔ (has_pfn v ≡ false))
unfolding has_pfn get_pfn
get_pfn_lem v = (
  ground (arith, check_bit-eq v 62 (omega arith), check_bit-eq v 63 (omega arith)),
  ground (arith, and-pfn_mask v),
  ground (arith, and-pfn_mask v),
)

-- The two fields of a swapped entry are its bits 0 to 4 and 5 to 54.
pub swap_fields : (v : ℕ) → (swap_type v ≡ v % 2 ^ 5) × (swap_offset v ≡ v / 2 ^ 5 % 2 ^ 50)
unfolding swap_type swap_offset
swap_fields v = (bit_and-ones 5 v, bit_and-ones 50 (v >>> 5))
