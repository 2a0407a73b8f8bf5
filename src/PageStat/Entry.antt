-- ===== src/PageStat/Entry.antt =====
-- pagestat/pagestat.c: the bits of a 64-bit pagemap entry.
pub mod Laws
use mm_exper.Base.{ℕ, Bool, not, ◌&&◌, ◌==◌, bit_and, if◌then◌else◌}
use mm_exper.Base.Word.{bit_mask, bit_mask_lower, invalid_value, ◌>>>◌}

-- `CHECK_BIT`.
unfoldable pub check_bit : ℕ → ℕ → Bool
check_bit val bit = bit_and val (bit_mask bit) == bit_mask bit

-- `PAGEMAP_*_BIT`.
abbrev pub soft_dirty_bit : ℕ
soft_dirty_bit = 55

abbrev pub exclusive_mapped_bit : ℕ
exclusive_mapped_bit = 56

abbrev pub uffd_wp_bit : ℕ
uffd_wp_bit = 57

abbrev pub is_file_bit : ℕ
is_file_bit = 61

abbrev pub swapped_bit : ℕ
swapped_bit = 62

abbrev pub present_bit : ℕ
present_bit = 63

-- `PAGEMAP_PFN_MASK`, `PAGEMAP_SWAP_TYPE_MASK`, `PAGEMAP_SWAP_OFFSET_MASK`.
abbrev pub pfn_mask : ℕ
pfn_mask = bit_mask_lower 55

abbrev pub swap_type_mask : ℕ
swap_type_mask = bit_mask_lower 5

abbrev pub swap_offset_mask : ℕ
swap_offset_mask = bit_mask_lower 50

unfoldable pub has_pfn : ℕ → Bool
has_pfn val = not (check_bit val swapped_bit) && check_bit val present_bit

unfoldable pub get_pfn : ℕ → ℕ
get_pfn val = if not (has_pfn val) then invalid_value else bit_and val pfn_mask

-- The two fields that `do_print_mapping` prints of a swapped entry.
unfoldable pub swap_type : ℕ → ℕ
swap_type val = bit_and val swap_type_mask

unfoldable pub swap_offset : ℕ → ℕ
swap_offset val = bit_and (val >>> 5) swap_offset_mask
