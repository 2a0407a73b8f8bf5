-- ===== src/Procmap/Protect.antt =====
-- random/procmap.c: `do_mremap_mprotect`, which moves half of a mapping behind a read-only one, makes that
-- one writable again and asks whether the two are one. A call that fails ends the program: the calls are
-- those of a run in which none does. Offsets are in pages from the start of the reserved range.
pub mod Layout
use mm_exper.Base.{ℕ, ◌+◌, ◌*◌, Bool, true, false, ltb, List, [], ◌∷◌, ◌++◌, if◌then◌else◌}
use mm_exper.Base.Word.{u64, sub64}
use mm_exper.Base.Output.{Output, text}

-- `mmap` of PROT_NONE pages or, fixed, of readable and writable ones; `munmap`; a write to the first byte
-- of a page; `mprotect`, with or without PROT_WRITE; and `mremap` of pages to an offset, with or without
-- MREMAP_MUST_RELOCATE_ANON.
pub data Call : Type 0 where
  reserve munmap mmap_fixed : ℕ → ℕ → Call
  write : ℕ → Call
  mprotect : ℕ → ℕ → Bool → Call
  mremap : ℕ → ℕ → ℕ → Bool → Call

-- Up to the query; `ptr` is at 0, `ptr2` at 50 and `ptr3` at 60.
unfoldable pub protect_calls : Bool → List Call
protect_calls relocate_anon =
    reserve 0 100
    ∷ munmap 0 100
    ∷ mmap_fixed 0 10
    ∷ mmap_fixed 50 10
    ∷ write 50
    ∷ mprotect 50 10 false
    ∷ write 5
    ∷ mremap 5 60 5 relocate_anon
    ∷ mprotect 50 10 true
    ∷ []

unfoldable pub cleanup_calls : List Call
cleanup_calls = munmap 0 5 ∷ munmap 50 10 ∷ munmap 60 10 ∷ []

-- What is printed of the VMA at `ptr2`, from its start and its end.
unfoldable pub print_merged : ℕ → ℕ → ℕ → Output
print_merged page_size start end =
    if ltb (u64 (10 * page_size)) (sub64 end start)
    then text "mprotect() MERGED\n" ∷ []
    else text "mprotect() UNMERGED\n" ∷ []
