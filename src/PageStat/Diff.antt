-- ===== src/PageStat/Diff.antt =====
-- pagestat/pagestat.c: what changed between two snapshots. A null snapshot is `none`.
pub mod Laws
pub mod Stale
use mm_exper.Base.{ℕ, zero, suc, ◌+◌, Bool, true, false, not, ◌&&◌, ◌||◌, ◌==◌, if◌then◌else◌}
use mm_exper.Base.{Option, none, some, List, [], ◌∷◌, ◌++◌, get_or, take}
use mm_exper.Base.Word.{invalid_value, add64}
use mm_exper.Base.Text.{Bytes, str_eq}
use mm_exper.Base.Output.{Output, text, dec, str, str_or_null, print_if, outputs}
use mm_exper.Base.Proc.{Proc}
use mm_exper.PageStat.Data.{PageStat, max_maps}
use mm_exper.PageStat.PageTable.{count_virt_pages}
use mm_exper.PageStat.Print.{Seen, Printed, print_mapping, render, print_header, pagestat_print}
use mm_exper.PageStat.Print.Flags.{KernelFlags}

abbrev pub or_empty : Option Bytes → Bytes
or_empty none = []
or_empty (some s) = s

-- The tests of `COMPARE`, `COMPARE_STR` and `COMPARE_STR_UNSAFE`.
abbrev pub differs : ℕ → ℕ → Bool
differs a b = not (a == b)

abbrev pub text_differs : Option Bytes → Option Bytes → Bool
text_differs a b = not (str_eq (take 255 (or_empty a)) (take 255 (or_empty b)))

abbrev change : Output → Output → Output → Output
change name from to = name ++ (text "=[" ∷ from) ++ (text "]->[" ∷ to) ++ text "] " ∷ []

abbrev when : Bool → Output → Output
when b out = if b then out else []

abbrev with_mark : ℕ → Bool → Output
with_mark n marked = dec n ∷ print_if marked "*"

-- The numbers, up to the first reset of `seen_first`.
unfoldable pub numbers_differ : PageStat → PageStat → Bool
numbers_differ a b =
    differs a.rss b.rss
    || differs a.referenced b.referenced
    || differs a.anon b.anon
    || differs a.anon_huge b.anon_huge
    || differs a.swap b.swap
    || differs a.locked b.locked

unfoldable pub diff_numbers : PageStat → PageStat → Output
unfolding numbers_differ
diff_numbers a b = outputs (
    when (differs a.rss b.rss)
      (change (text "rss" ∷ []) (with_mark a.rss a.rss_counted) (with_mark b.rss b.rss_counted))
    ∷ when (differs a.referenced b.referenced)
        (change (text "ref" ∷ []) (dec a.referenced ∷ []) (dec b.referenced ∷ []))
    ∷ when (differs a.anon b.anon) (change (text "anon" ∷ []) (dec a.anon ∷ []) (dec b.anon ∷ []))
    ∷ when (differs a.anon_huge b.anon_huge)
        (change (text "anon_huge" ∷ []) (dec a.anon_huge ∷ []) (dec b.anon_huge ∷ []))
    ∷ when (differs a.swap b.swap) (change (text "swap" ∷ []) (dec a.swap ∷ []) (dec b.swap ∷ []))
    ∷ when (differs a.locked b.locked)
        (change (text "locked" ∷ []) (dec a.locked ∷ []) (dec b.locked ∷ []))
    ∷ print_if (numbers_differ a b) "\n"
    ∷ [])

-- The flags, permissions, offset and name, up to the second reset.
unfoldable pub texts_differ : PageStat → PageStat → Bool
texts_differ a b =
    text_differs a.vm_flags b.vm_flags
    || not (str_eq a.perms b.perms)
    || differs a.offset b.offset
    || text_differs a.name b.name

unfoldable pub diff_texts : PageStat → PageStat → Output
unfolding texts_differ
diff_texts a b = outputs (
    when (text_differs a.vm_flags b.vm_flags)
      (change (text "vm_flags" ∷ []) (str_or_null a.vm_flags ∷ []) (str_or_null b.vm_flags ∷ []))
    ∷ when (not (str_eq a.perms b.perms))
        (change (text "perms" ∷ []) (str a.perms ∷ []) (str b.perms ∷ []))
    ∷ when (differs a.offset b.offset)
        (change (text "offset" ∷ []) (dec a.offset ∷ []) (dec b.offset ∷ []))
    ∷ when (text_differs a.name b.name)
        (change (text "name" ∷ []) (str_or_null a.name ∷ []) (str_or_null b.name ∷ []))
    ∷ print_if (texts_differ a b) "\n"
    ∷ [])

-- The test by which the loop passes over a page.
unfoldable pub same_page : PageStat → PageStat → ℕ → Bool
same_page a b i =
    (get_or a.pagemaps i 0 == get_or b.pagemaps i 0)
    && (get_or a.kpagecounts i 0 == get_or b.kpagecounts i 0)
    && (get_or a.kpageflags i 0 == get_or b.kpageflags i 0)

module _ (proc : Proc) (kpf : KernelFlags) where
  -- The two calls of `print_mapping` for a page that changed.
  unfoldable pub diff_page : PageStat → PageStat → ℕ → ℕ → Seen → Output × Seen
  diff_page a b i addr s =
      let (old, t) = print_mapping addr a i false s in
      let (new, u) = print_mapping invalid_value b i false t in
      (render kpf a old ++ text "               -> " ∷ render kpf b new, u)

  -- The loop at page `i` with `n` pages left; `first` is `seen_first`.
  unfoldable pub diff_pages : PageStat → PageStat → ℕ → ℕ → ℕ → Bool → Seen → Printed
  diff_pages a b zero i addr first s = record { result = first; out = []; seen = s }
  diff_pages a b (suc n) i addr first s =
      let same = same_page a b i in
      let (page, t) = diff_page a b i addr s in
      let p =
        diff_pages a b n (i + 1) (add64 addr proc.page_size) (first || not same)
          (if same then s else t) in
      record p { out = (if same then [] else (print_if (not first) "\n" ++ page)) ++ p.out }

  -- From the comparison of the fields on.
  unfoldable pub diff_contents : PageStat → PageStat → Seen → Printed
  diff_contents a b s =
      let p = diff_pages a b (count_virt_pages proc a) 0 a.vma_start false s in
      record p {
        out =
            diff_numbers a b
            ++ diff_texts a b
            ++ p.out
            ++ (if p.result then text "\n" ∷ print_header a else []);
      }

  -- Two snapshots with different ranges.
  unfoldable pub diff_ranges : PageStat → PageStat → Seen → Printed
  diff_ranges a b s =
      let p = pagestat_print proc kpf (some a) s in
      let q = pagestat_print proc kpf (some b) p.seen in
      if not p.result then p else record {
        result = true;
        out =
            p.out
            ++ text "^^^^---- VMA RANGE CHANGE. Outputting both for manual diff ----vvvv\n" ∷ q.out;
        seen = q.seen;
      }

  unfoldable pub pagestat_print_diff : Option PageStat → Option PageStat → Seen → Printed
  pagestat_print_diff none none s = record { result = false; out = []; seen = s }
  pagestat_print_diff none (some b) s = pagestat_print proc kpf (some b) s
  pagestat_print_diff (some a) none s = pagestat_print proc kpf (some a) s
  pagestat_print_diff (some a) (some b) s =
      if differs a.vma_start b.vma_start || differs a.vma_end b.vma_end
      then diff_ranges a b s
      else diff_contents a b s

  abbrev pub head_of : List PageStat → Option PageStat
  head_of [] = none
  head_of (ps ∷ pss) = some ps

  abbrev pub tail_of : List PageStat → List PageStat
  tail_of [] = []
  tail_of (ps ∷ pss) = pss

  -- The loop with `n` places left; behind the snapshots the places are null.
  unfoldable pub diff_all_from : ℕ → List PageStat → List PageStat → Seen → Printed
  diff_all_from zero pss_a pss_b s = record { result = false; out = []; seen = s }
  diff_all_from (suc n) pss_a pss_b s =
      let p = pagestat_print_diff (head_of pss_a) (head_of pss_b) s in
      let q = diff_all_from n (tail_of pss_a) (tail_of pss_b) p.seen in
      record {
        result = p.result || q.result;
        out = p.out ++ (if p.result then text "\n" ∷ text "\n" ∷ text "\n" ∷ [] else []) ++ q.out;
        seen = q.seen;
      }

  unfoldable pub pagestat_print_diff_all : List PageStat → List PageStat → Seen → Printed
  pagestat_print_diff_all = diff_all_from max_maps
