-- ===== src/Tests/TourTests.antt =====
-- random/pagemap_tour.c on an anonymous page with frame 0x1234, and on one that is swapped.
use mm_exper.Base.{ℕ, true, ◌+◌, ◌*◌, ◌^◌, if◌then◌else◌, ◌≡◌, refl, some, none, [], ◌∷◌, take}
use mm_exper.Base.Text.{codes, str_eq}
use mm_exper.Base.Proc.{Proc, WordFile}
use mm_exper.Base.Output.{text, dec, pointer}
use mm_exper.Base.Run.{then_run, say}
use mm_exper.PageStat.Entry
use mm_exper.PagemapTour.{read_pagemap, describe_addr}
use mm_exper.PagemapTour.Same.{described, describe_addr-described}
use mm_exper.Tests.PrintTests.{linux_flags}

abbrev words_of : ℕ → WordFile
words_of w = record { seek = λ offset. true; read = λ offset count. take count (w ∷ []) }

-- All pages have the same entry; they are mapped once, and their flags are UPTODATE, LRU and ACTIVE.
abbrev proc_with : ℕ → Proc
proc_with entry = record {
  page_size = 4096;
  words = λ path.
      if str_eq path (codes "/proc/self/pagemap")
      then some (words_of entry)
      else if str_eq path (codes "/proc/kpageflags")
      then some (words_of 0x68)
      else some (words_of 1);
  lines = λ path. none;
}

abbrev anonymous : ℕ
anonymous = 2 ^ 63 + 2 ^ 56 + 0x1234

describe_addr-described_example :
    describe_addr (proc_with anonymous) linux_flags 0x7000
    ≡ then_run
        (say (pointer 0x7000 ∷ text ": " ∷ []))
        (λ done. described (proc_with anonymous) linux_flags anonymous)
unfolding read_pagemap Entry.check_bit str_eq
describe_addr-described_example =
    describe_addr-described (proc_with anonymous) linux_flags 0x7000 anonymous refl refl

page :
    (describe_addr (proc_with anonymous) linux_flags 0x7000).out
    ≡ pointer 0x7000
      ∷ text ": "
      ∷ text "anon"
      ∷ text ": "
      ∷ text "pfn="
      ∷ dec 0x1234
      ∷ text " [EX]"
      ∷ text " mapped="
      ∷ dec 1
      ∷ text " [ACTIVE]"
      ∷ text " [LRU]"
      ∷ text " [UPTODATE]"
      ∷ text "\n"
      ∷ []
unfolding describe_addr str_eq
page = refl

swapped :
    (describe_addr (proc_with (2 ^ 62 + 3 + 32 * 77)) linux_flags 0x7000).out
    ≡ pointer 0x7000
      ∷ text ": "
      ∷ text "swapped: type="
      ∷ dec 3
      ∷ text ", offset="
      ∷ dec 77
      ∷ text "\n"
      ∷ []
unfolding describe_addr str_eq
swapped = refl
