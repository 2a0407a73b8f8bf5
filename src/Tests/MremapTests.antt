-- ===== src/Tests/MremapTests.antt =====
-- random/mremap_bench.c: an aligned mapping, and moves whose times are known.
use mm_exper.Base.{ℕ, ◌^◌, ◌≡◌, refl, arith, Bool, true, false, if◌then◌else◌, some, [], get_or}
use mm_exper.MremapBench.{mmap_aligned, Round, pmd_align}
use mm_exper.MremapBench.Relocate.{Reloc, Kernel, timed, time_relocate}
use mm_exper.MremapBench.Relocate.Laws.{Fits, is_mapped, left_over, time_relocate-left}
use mm_exper.MremapBench.Relocate.Time.{IsWorking, time_relocate-timed}
use mm_exper.Procmap.Protect.Layout.{Layout, page, unmapped, after_calls}
use mm_exper.MremapUnmap.{main_moves, move_calls, do_move}
use mm_exper.MremapUnmap.Layout.{do_move-back}

-- Where the range starts at a multiple, the address is the next one.
next_one : (mmap_aligned (some 0x7f0000400000) true 0x400000 (2 ^ 21)).ptr ≡ some 0x7f0000600000
unfolding mmap_aligned
next_one = refl

-- A move takes 3 if it relocates, and else 1.
abbrev elapsed : Round → Bool → ℕ → ℕ → ℕ
elapsed r relocate pop_len align = if relocate then 3 else 1

small : pmd_align true 0x1ff000 ≡ 0
small = refl

large : pmd_align true 0x200000 ≡ 0x200000
large = refl

-- A kernel that moves the bytes, and reclaims pages or not.
abbrev moving : Bool → Kernel
moving reclaims = record {
  mmap = λ r. some 0x7f0000345000;
  map_fixed = λ r. true;
  advise_nohuge = true;
  munmap = true;
  mremap = λ relocate. true;
  t_start = record { tv_sec = 3; tv_nsec = 999999999 };
  t_end = record { tv_sec = 4; tv_nsec = 1 };
  moved = λ f. f;
  advise_pageout = reclaims;
}

abbrev two_pages : Reloc
two_pages = record {
  relocate = true;
  nohuge = true;
  old_len = 8192;
  new_len = 8192;
  pop_len = 4096;
  align = 2 ^ 21;
}

given-Fits : Fits (some 0x7f0000345000) 8192 (2 ^ 21)
given-Fits p e = grind arith

time_relocate-left_example :
    is_mapped 0x7f0000400000 (time_relocate (moving false) two_pages).steps false
    ≡ left_over 0x7f0000400000 8192 (time_relocate (moving false) two_pages).outcome
time_relocate-left_example =
    time_relocate-left (moving false) two_pages 0x7f0000400000 21 true (omega arith) refl given-Fits
      given-Fits refl

moving-IsWorking : IsWorking (moving true) two_pages
moving-IsWorking = record {
  maps = λ r. (0x7f0000345000, refl);
  maps_fixed = λ r. refl;
  advises = refl;
  unmaps = refl;
  moves = refl;
  keeps = λ f i l. refl;
  reclaims = refl;
}

time_relocate-timed_example : (time_relocate (moving true) two_pages).outcome ≡ timed 2
time_relocate-timed_example =
    time_relocate-timed (moving true) two_pages 21 true (omega arith) refl moving-IsWorking
      given-Fits given-Fits (omega arith) (omega arith) (omega arith)

-- Read-only pages around the range, and both halves written to.
abbrev surrounded : Layout
surrounded i = page false i

do_move-back_example :
    (get_or main_moves 7 [] ≡ do_move true true true)
    × (after_calls (move_calls true true true) surrounded 9 ≡ page true 9)
    × (after_calls (do_move true true true) surrounded 9 ≡ unmapped)
do_move-back_example = do_move-back true true true surrounded 9
