-- ===== src/PagemapTour.antt =====
-- random/pagemap_tour.c: the description of a page of the process by its entry in /proc/self/pagemap.
pub mod Same
use mm_exper.Base.{ℕ, ◌+◌, ◌-◌, ◌*◌, ◌/◌, ◌^◌, Bool, not, ◌==◌, if◌then◌else◌, bit_and}
use mm_exper.Base.{Option, none, some, List, [], ◌∷◌, ◌++◌}
use mm_exper.Base.Word.{u64, ◌>>>◌}
use mm_exper.Base.Text.{Bytes, codes}
use mm_exper.Base.Output.{Output, text, dec, pointer, print_if, outputs}
use mm_exper.Base.Run.{Run, then_run, print, say, exit}
use mm_exper.Base.Proc.{Proc, WordFile}
use mm_exper.PageStat.Print.Flags.{KernelFlags}

-- The masks of an entry.
abbrev pub pagemap_softdirty : ℕ
pagemap_softdirty = 2 ^ 55

abbrev pub pagemap_exclusive : ℕ
pagemap_exclusive = 2 ^ 56

abbrev pub pagemap_file : ℕ
pagemap_file = 2 ^ 61

abbrev pub pagemap_swapped : ℕ
pagemap_swapped = 2 ^ 62

abbrev pub pagemap_present : ℕ
pagemap_present = 2 ^ 63

abbrev pub pagemap_swap_type_mask : ℕ
pagemap_swap_type_mask = 2 ^ 5 - 1

abbrev pub pagemap_pfn_mask : ℕ
pagemap_pfn_mask = 2 ^ 55 - 1

-- `if (val & mask)`.
abbrev pub has : ℕ → ℕ → Bool
has val mask = not (bit_and val mask == 0)

abbrev first_word : List ℕ → Run ℕ
first_word [] = exit
first_word (w ∷ ws) = print [] w

abbrev word_of : Option WordFile → ℕ → Run ℕ
word_of none offset = exit
word_of (some file) offset = if file.seek offset then first_word (file.read offset 1) else exit

-- The word at a byte offset; the program ends where it cannot be read.
unfoldable pub read_u64 : Proc → Bytes → ℕ → Run ℕ
read_u64 proc path offset = word_of (proc.words path) offset

module _ (proc : Proc) where
  unfoldable pub read_pagemap : ℕ → Run ℕ
  unfolding read_u64
  read_pagemap ptr = read_u64 proc (codes "/proc/self/pagemap") (u64 (ptr / proc.page_size * 8))

  unfoldable pub read_kpageflags : ℕ → Run ℕ
  unfolding read_u64
  read_kpageflags pfn = read_u64 proc (codes "/proc/kpageflags") (u64 (pfn * 8))

  unfoldable pub read_mapcount : ℕ → Run ℕ
  unfolding read_u64
  read_mapcount pfn = read_u64 proc (codes "/proc/kpagecount") (u64 (pfn * 8))

unfoldable pub describe_swapped : ℕ → Output
describe_swapped pagemap =
    text "swapped: type="
    ∷ dec (bit_and pagemap pagemap_swap_type_mask)
    ∷ text ", offset="
    ∷ dec (bit_and pagemap pagemap_pfn_mask >>> 5)
    ∷ text "\n"
    ∷ []

-- `PRINT_FLAGS` of each flag.
unfoldable pub print_flags : KernelFlags → ℕ → Output
print_flags kpf kpageflags = outputs (
    print_if (has kpageflags (2 ^ kpf.active)) " [ACTIVE]"
    ∷ print_if (has kpageflags (2 ^ kpf.dirty)) " [DIRTY]"
    ∷ print_if (has kpageflags (2 ^ kpf.locked)) " [LOCKED]"
    ∷ print_if (has kpageflags (2 ^ kpf.lru)) " [LRU]"
    ∷ print_if (has kpageflags (2 ^ kpf.mmap)) " [MMAP]"
    ∷ print_if (has kpageflags (2 ^ kpf.nopage)) " [NOPAGE]"
    ∷ print_if (has kpageflags (2 ^ kpf.referenced)) " [REFERENCED]"
    ∷ print_if (has kpageflags (2 ^ kpf.swapbacked)) " [SWAPBACKED]"
    ∷ print_if (has kpageflags (2 ^ kpf.uptodate)) " [UPTODATE]"
    ∷ print_if (has kpageflags (2 ^ kpf.writeback)) " [WRITEBACK]"
    ∷ [])

module _ (proc : Proc) (kpf : KernelFlags) where
  unfoldable pub describe_kpageflags : ℕ → Run {0} Unit
  unfolding print_flags read_kpageflags
  describe_kpageflags pfn =
      then_run (read_kpageflags proc pfn) (λ kpageflags. say (print_flags kpf kpageflags))

  -- The count and the flags of a page, and the end of the line.
  unfoldable pub describe_frame : ℕ → Run {0} Unit
  unfolding describe_kpageflags read_mapcount
  describe_frame pfn = then_run (read_mapcount proc pfn) (λ mapcount.
      then_run (say (text " mapped=" ∷ dec mapcount ∷ []))
        (λ done. then_run (describe_kpageflags pfn) (λ done. say (text "\n" ∷ []))))

  abbrev pub frame_line : Bool → ℕ → Bool → Bool → Run {0} Unit
  frame_line file pfn softdirty exclusive =
      then_run
        (say (
          (if file then text "file" ∷ [] else text "anon" ∷ [])
          ++ (text ": " ∷ text "pfn=" ∷ dec pfn ∷ [])
          ++ print_if softdirty " [SD]"
          ++ print_if exclusive " [EX]"))
        (λ done. describe_frame pfn)

  unfoldable pub describe_entry : ℕ → Run {0} Unit
  unfolding describe_swapped describe_frame
  describe_entry pagemap =
      if not (has pagemap pagemap_present)
      then say (
          if has pagemap pagemap_swapped
          then describe_swapped pagemap
          else text "<not present>\n" ∷ [])
      else frame_line (has pagemap pagemap_file) (bit_and pagemap pagemap_pfn_mask)
          (has pagemap pagemap_softdirty) (has pagemap pagemap_exclusive)

  unfoldable pub describe_addr : ℕ → Run {0} Unit
  unfolding read_pagemap describe_entry
  describe_addr ptr =
      then_run (read_pagemap proc ptr)
        (λ pagemap. then_run (say (pointer ptr ∷ text ": " ∷ [])) (λ done. describe_entry pagemap))
