-- ===== src/ReadPageflags/Words.antt =====
-- read-pageflags/read-pageflags.c: words of /proc/self/pagemap, /proc/kpageflags, /proc/kpagecount.
use mm_exper.Base.{ℕ, ◌*◌, ◌/◌, Bool, not, ◌==◌, bit_and, if◌then◌else◌}
use mm_exper.Base.{Option, none, some, List, [], ◌∷◌}
use mm_exper.Base.Word.{u64, invalid_value, bit_mask, bit_mask_lower}
use mm_exper.Base.Text.{Bytes, codes}
use mm_exper.Base.Proc.{Proc, WordFile}

-- `CHECK_BIT`.
unfoldable pub check_bit : ℕ → ℕ → Bool
check_bit val bit = bit_and val (bit_mask bit) == bit_mask bit

-- `PAGEMAP_SOFT_DIRTY_BIT`, `PAGEMAP_EXCLUSIVELY_MAPPED_BIT`, `PAGEMAP_FILE_PAGE_SH_ANON_BIT`,
-- `PAGEMAP_SWAPPED_BIT`, `PAGEMAP_PRESENT_BIT`.
abbrev pub soft_dirty_bit : ℕ
soft_dirty_bit = 55

abbrev pub exclusively_mapped_bit : ℕ
exclusively_mapped_bit = 56

abbrev pub file_page_sh_anon_bit : ℕ
file_page_sh_anon_bit = 61

abbrev pub swapped_bit : ℕ
swapped_bit = 62

abbrev pub present_bit : ℕ
present_bit = 63

-- `PAGEMAP_PFN_MASK`.
abbrev pub pfn_mask : ℕ
pfn_mask = bit_mask_lower 55

-- `fread` of one word: the first of what is read, or the error branch if nothing is.
abbrev pub first_or_invalid : List ℕ → ℕ
first_or_invalid [] = invalid_value
first_or_invalid (w ∷ ws) = w

abbrev pub word_at : Option WordFile → ℕ → ℕ
word_at none offset = invalid_value
word_at (some fp) offset =
    if not (fp.seek offset) then invalid_value else first_or_invalid (fp.read offset 1)

-- The word at a byte offset.
unfoldable pub read_u64 : Proc → Bytes → ℕ → ℕ
read_u64 proc path offset = word_at (proc.words path) offset

unfoldable pub extract_pfn : ℕ → ℕ
extract_pfn val =
    if val == invalid_value
    then invalid_value
    else if check_bit val swapped_bit
    then invalid_value
    else if not (check_bit val present_bit)
    then invalid_value
    else bit_and val pfn_mask

module _ (proc : Proc) where
  unfoldable pub read_pagemap : ℕ → ℕ
  read_pagemap ptr = read_u64 proc (codes "/proc/self/pagemap") (u64 (ptr / proc.page_size * 8))

  unfoldable pub read_pfn : ℕ → ℕ
  read_pfn ptr = extract_pfn (read_pagemap ptr)

  unfoldable pub read_kpageflags : ℕ → ℕ
  read_kpageflags pfn = read_u64 proc (codes "/proc/kpageflags") (u64 (pfn * 8))

  unfoldable pub read_mapcount : ℕ → ℕ
  read_mapcount pfn = read_u64 proc (codes "/proc/kpagecount") (u64 (pfn * 8))
