-- ===== src/ReadPageflags/Flags.antt =====
-- read-pageflags/read-pageflags.c: `print_kpageflags` and `print_pagemap_flags`.
use mm_exper.Base.{ℕ, ◌∷◌, [], if◌then◌else◌}
use mm_exper.Base.Output.{Output, text, print_if, outputs}
use mm_exper.PageStat.Print.Flags.{KernelFlags}
use mm_exper.ReadPageflags.Words.{
  check_bit, soft_dirty_bit, exclusively_mapped_bit, file_page_sh_anon_bit, swapped_bit,
  present_bit,
}

-- The numbers that the source defines itself.
abbrev pub kpf_reserved : ℕ
kpf_reserved = 32

abbrev pub kpf_mlocked : ℕ
kpf_mlocked = 33

abbrev pub kpf_mappedtodisk : ℕ
kpf_mappedtodisk = 34

abbrev pub kpf_private : ℕ
kpf_private = 35

abbrev pub kpf_private_2 : ℕ
kpf_private_2 = 36

abbrev pub kpf_owner_private : ℕ
kpf_owner_private = 37

abbrev pub kpf_arch : ℕ
kpf_arch = 38

abbrev pub kpf_uncached : ℕ
kpf_uncached = 39

abbrev pub kpf_softdirty : ℕ
kpf_softdirty = 40

abbrev pub kpf_arch_2 : ℕ
kpf_arch_2 = 41

unfoldable pub print_kpageflags : KernelFlags → ℕ → Output
print_kpageflags kpf flags = outputs (
    print_if (check_bit flags kpf.active) "ACTIVE "
    ∷ print_if (check_bit flags kpf.anon) "ANON "
    ∷ print_if (check_bit flags kpf.buddy) "BUDDY "
    ∷ print_if (check_bit flags kpf.compound_head) "COMPOUND_HEAD "
    ∷ print_if (check_bit flags kpf.compound_tail) "COMPOUND_TAIL "
    ∷ print_if (check_bit flags kpf.dirty) "DIRTY "
    ∷ print_if (check_bit flags kpf.error) "ERROR "
    ∷ print_if (check_bit flags kpf.huge) "HUGE "
    ∷ print_if (check_bit flags kpf.hwpoison) "HWPOISON "
    ∷ print_if (check_bit flags kpf.idle) "IDLE "
    ∷ print_if (check_bit flags kpf.ksm) "KSM "
    ∷ print_if (check_bit flags kpf.locked) "LOCKED "
    ∷ print_if (check_bit flags kpf.lru) "LRU "
    ∷ print_if (check_bit flags kpf.mmap) "MMAP "
    ∷ print_if (check_bit flags kpf.nopage) "NOPAGE "
    ∷ print_if (check_bit flags kpf.offline) "OFFLINE "
    ∷ print_if (check_bit flags kpf.pgtable) "PGTABLE "
    ∷ print_if (check_bit flags kpf.reclaim) "RECLAIM "
    ∷ print_if (check_bit flags kpf.referenced) "REFERENCED "
    ∷ print_if (check_bit flags kpf.slab) "SLAB "
    ∷ print_if (check_bit flags kpf.swapbacked) "SWAPBACKED "
    ∷ print_if (check_bit flags kpf.swapcache) "SWAPCACHE "
    ∷ print_if (check_bit flags kpf.thp) "THP "
    ∷ print_if (check_bit flags kpf.unevictable) "UNEVICTABLE "
    ∷ print_if (check_bit flags kpf.uptodate) "UPTODATE "
    ∷ print_if (check_bit flags kpf.writeback) "WRITEBACK "
    ∷ print_if (check_bit flags kpf.zero_page) "ZERO_PAGE "
    ∷ print_if (check_bit flags kpf_reserved) "RESERVED "
    ∷ print_if (check_bit flags kpf_mlocked) "MLOCKED "
    ∷ (if check_bit flags kpf_mappedtodisk
        then (if check_bit flags kpf.anon
            then text "ANON_EXCLUSIVE " ∷ []
            else text "MAPPEDTODISK " ∷ [])
        else [])
    ∷ print_if (check_bit flags kpf_private) "PRIVATE "
    ∷ print_if (check_bit flags kpf_private_2) "PRIVATE_2 "
    ∷ print_if (check_bit flags kpf_owner_private) "OWNER_PRIVATE "
    ∷ print_if (check_bit flags kpf_arch) "ARCH "
    ∷ print_if (check_bit flags kpf_uncached) "UNCACHED "
    ∷ print_if (check_bit flags kpf_softdirty) "SOFTDIRTY "
    ∷ print_if (check_bit flags kpf_arch_2) "ARCH_2 "
    ∷ [])

unfoldable pub print_pagemap_flags : ℕ → Output
print_pagemap_flags val =
    text "["
    ∷ text (if check_bit val soft_dirty_bit then "s" else " ")
    ∷ text (if check_bit val exclusively_mapped_bit then "x" else " ")
    ∷ text (if check_bit val file_page_sh_anon_bit then "f" else " ")
    ∷ text (if check_bit val swapped_bit then "S" else " ")
    ∷ text (if check_bit val present_bit then "p" else " ")
    ∷ text "] "
    ∷ []
