-- ===== src/Tests/PrintTests.antt =====
-- pagestat: listings and comparisons of small mappings.
use mm_exper.Base.{ℕ, zero, suc, ◌+◌, ◌*◌, ◌-◌, ◌^◌, ◌<◌, ◌≡◌, refl, arith, not, ◌==◌}
use mm_exper.Base.{true, false, none, some, List, [], ◌∷◌, get_or}
use mm_exper.Base.Word.{invalid_value}
use mm_exper.Base.Proc.{Proc}
use mm_exper.PageStat.Data.{PageStat, cleared}
use mm_exper.PageStat.Entry.{check_bit, has_pfn, get_pfn}
use mm_exper.PageStat.PageTable.{count_virt_pages}
use mm_exper.PageStat.Print.{
  unseen, Line, mapping, repeats, is_new, print_mapping, print_pages, print_all_pages,
  print_mapping_terminate,
}
use mm_exper.PageStat.Print.Flags.{KernelFlags}
use mm_exper.PageStat.Print.Cover.{Covers}
use mm_exper.PageStat.Print.Listing.{IsFresh, print_all_pages-Covers}
use mm_exper.PageStat.Diff.{same_page, diff_page, diff_pages, diff_contents, pagestat_print_diff}
use mm_exper.PageStat.Diff.Laws.{page_differs, changed_pages, pagestat_print_diff-changed}
use mm_exper.PageStat.Diff.Stale.{listing-after_diff}

-- The bit numbers of the Linux header.
abbrev pub linux_flags : KernelFlags
linux_flags = record {
  locked = 0;
  error = 1;
  referenced = 2;
  uptodate = 3;
  dirty = 4;
  lru = 5;
  active = 6;
  slab = 7;
  writeback = 8;
  reclaim = 9;
  buddy = 10;
  mmap = 11;
  anon = 12;
  swapcache = 13;
  swapbacked = 14;
  compound_head = 15;
  compound_tail = 16;
  huge = 17;
  unevictable = 18;
  hwpoison = 19;
  nopage = 20;
  ksm = 21;
  thp = 22;
  offline = 23;
  zero_page = 24;
  idle = 25;
  pgtable = 26;
}

abbrev no_files : Proc
no_files = record { page_size = 4096; words = λ path. none; lines = λ path. none }

abbrev frame : ℕ → ℕ
frame pfn = 2 ^ 63 + pfn

abbrev pages : ℕ → List ℕ → PageStat
pages kib entries = record (cleared 0x400000 0x404000) { vm_size = kib; pagemaps = entries }

-- Four pages in consecutive frames, and one that is not present.
abbrev run : PageStat
run = pages 20 (frame 8 ∷ frame 9 ∷ frame 10 ∷ frame 11 ∷ 0 ∷ [])

run_lines :
    (print_all_pages no_files run unseen).0
    ≡ mapping 0x400000 0 (frame 8) ∷ repeats 0x403000 3 ∷ mapping 0x404000 4 0 ∷ []
unfolding print_all_pages print_pages print_mapping print_mapping_terminate count_virt_pages get_pfn
    has_pfn check_bit
run_lines = refl

run_in_range : (i : ℕ) → get_or run.pagemaps i 0 < 2 ^ 64
run_in_range zero = omega arith
run_in_range (suc zero) = omega arith
run_in_range (suc (suc zero)) = omega arith
run_in_range (suc (suc (suc zero))) = omega arith
run_in_range (suc (suc (suc (suc zero)))) = omega arith
run_in_range (suc (suc (suc (suc (suc i))))) = omega arith

print_all_pages-Covers_example :
    Covers run.pagemaps 0x400000 4096 0
      (print_all_pages no_files run unseen).0
      (count_virt_pages no_files run)
    × IsFresh (print_all_pages no_files run unseen).1
print_all_pages-Covers_example =
    print_all_pages-Covers no_files run unseen run_in_range (omega arith) (refl, refl)

-- Before: nothing present, with other statistics. After: the first two pages are.
abbrev before : PageStat
before = pages 8 (0 ∷ 0 ∷ [])

abbrev after : PageStat
after = record before { rss = 8; pagemaps = frame 8 ∷ frame 9 ∷ [] }

pagestat_print_diff-changed_example :
    ((pagestat_print_diff no_files linux_flags (some before) (some after) unseen).result
      ≡ not (changed_pages no_files before after == 0))
    × ((pagestat_print_diff no_files linux_flags (some before) (some after) unseen).seen.count
        ≡ 0 + 2 * changed_pages no_files before after)
pagestat_print_diff-changed_example =
    pagestat_print_diff-changed no_files linux_flags before after unseen (refl, refl)

-- A change of the resident size alone is no change.
rss_alone :
    (pagestat_print_diff no_files linux_flags
      (some before)
      (some (record before { rss = 4 }))
      unseen).result
    ≡ false
unfolding pagestat_print_diff diff_contents diff_pages count_virt_pages same_page
rss_alone = refl

after_in_range : (i : ℕ) → get_or after.pagemaps i 0 < 2 ^ 64
after_in_range zero = omega arith
after_in_range (suc zero) = omega arith
after_in_range (suc (suc i)) = omega arith

two_changed : changed_pages no_files before after ≡ 2
unfolding count_virt_pages page_differs
two_changed = refl

starts_anew :
    is_new
      (pagestat_print_diff no_files linux_flags (some before) (some after) unseen).seen
      (frame 8)
    ≡ true
unfolding pagestat_print_diff diff_contents diff_pages diff_page print_mapping count_virt_pages
    same_page get_pfn has_pfn check_bit
starts_anew = refl

run_has_pages : 0 < count_virt_pages no_files run
unfolding count_virt_pages
run_has_pages = omega arith

listing-after_diff_example :
    (rest : List Line) × ((print_all_pages no_files run
        (pagestat_print_diff no_files linux_flags (some before) (some after) unseen).seen).0
      ≡ repeats invalid_value (0 + 2 * changed_pages no_files before after - 1) ∷ rest)
listing-after_diff_example =
    listing-after_diff no_files linux_flags before after run unseen (refl, refl) after_in_range
      (omega (arith, two_changed)) run_has_pages starts_anew
