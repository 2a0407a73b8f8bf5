-- ===== src/PageStat/Diff/Laws.antt =====
-- What the results of the comparison mean, and what it leaves in the static variables.
use mm_exper.Base.{ℕ, zero, suc, ◌+◌, ◌*◌, ◌^◌, ◌<◌, ◌≡◌, ◌≢◌, refl, arith}
use mm_exper.Base.{Bool, true, false, not, ◌&&◌, ◌||◌, ◌==◌, Bool-cases, inl, inr, if◌then◌else◌}
use mm_exper.Base.{some, List, [], ◌∷◌, get_or}
use mm_exper.Base.Word.{add64, invalid_value}
use mm_exper.Base.Proc.{Proc}
use mm_exper.PageStat.Data.{PageStat}
use mm_exper.PageStat.PageTable.{count_virt_pages}
use mm_exper.PageStat.Print.{Seen, print_mapping}
use mm_exper.PageStat.Print.Flags.{KernelFlags}
use mm_exper.PageStat.Entry.Laws.{and-not_pfn_mask}
use mm_exper.PageStat.Diff.{
  differs, same_page, diff_page, diff_pages, diff_contents, pagestat_print_diff,
}

-- What a snapshot holds of page `i`: its pagemap entry, and the count and the flags of its frame.
abbrev pub words_of_page : PageStat → ℕ → List ℕ
words_of_page ps i =
    get_or ps.pagemaps i 0 ∷ get_or ps.kpagecounts i 0 ∷ get_or ps.kpageflags i 0 ∷ []

abbrev pub same_words : List ℕ → List ℕ → Bool
same_words [] [] = true
same_words [] (w ∷ ws) = false
same_words (v ∷ vs) [] = false
same_words (v ∷ vs) (w ∷ ws) = (v == w) && same_words vs ws

-- Whether the snapshots hold different words of page `i`.
unfoldable pub page_differs : PageStat → PageStat → ℕ → Bool
page_differs a b i = not (same_words (words_of_page a i) (words_of_page b i))

-- The number of pages among `n` from `i` on that changed.
abbrev pub changed : PageStat → PageStat → ℕ → ℕ → ℕ
changed a b zero i = 0
changed a b (suc n) i = (if page_differs a b i then 1 else 0) + changed a b n (i + 1)

-- The loop passes over the pages that did not change, and over no others.
same_page-page_differs : (a b : PageStat) (i : ℕ) → same_page a b i ≡ not (page_differs a b i)
unfolding same_page page_differs
same_page-page_differs a b i = ground arith

module _ (proc : Proc) (kpf : KernelFlags) (a b : PageStat) where
  -- Each changed page is printed twice, and the count of pages printed goes up by two.
  count-diff_page :
      (i addr : ℕ) (s : Seen) → (diff_page proc kpf a b i addr s).1.count ≡ s.count + 2
  unfolding diff_page print_mapping
  count-diff_page i addr s = omega arith

  diff_pages_lem :
      (n i addr : ℕ) (first : Bool) (s : Seen)
      → ((diff_pages proc kpf a b n i addr first s).result ≡ (first || not (changed a b n i == 0)))
        × ((diff_pages proc kpf a b n i addr first s).seen.count ≡ s.count + 2 * changed a b n i)
  unfolding diff_pages
  diff_pages_lem zero i addr first s = (ground arith, omega arith)
  diff_pages_lem (suc n) i addr true s = ground (
    arith,
    same_page-page_differs a b i,
    count-diff_page i addr s,
    diff_pages_lem n (i + 1) (add64 addr proc.page_size) true s,
    diff_pages_lem n (i + 1) (add64 addr proc.page_size) true (diff_page proc kpf a b i addr s).1,
  )
  diff_pages_lem (suc n) i addr false s = ground (
    arith,
    same_page-page_differs a b i,
    count-diff_page i addr s,
    diff_pages_lem n (i + 1) (add64 addr proc.page_size) false s,
    diff_pages_lem n (i + 1) (add64 addr proc.page_size) true (diff_page proc kpf a b i addr s).1,
  )

  -- What a changed page leaves: the second of its lines was printed with no address.
  IsLeft : Seen → Type 0
  IsLeft t = (t.last_addr ≡ invalid_value) × (t.last_map ≢ invalid_value)

  module _ (in_range : (i : ℕ) → get_or b.pagemaps i 0 < 2 ^ 64) where
    diff_page-IsLeft : (i addr : ℕ) (s : Seen) → IsLeft (diff_page proc kpf a b i addr s).1
    unfolding IsLeft diff_page print_mapping
    diff_page-IsLeft i addr s = (
      refl,
      λ e. absurd (omega (arith, and-not_pfn_mask (get_or b.pagemaps i 0) (in_range i), e)),
    )

    diff_pages-keeps :
        (n i addr : ℕ) (first : Bool) (s : Seen)
        → IsLeft s
        → IsLeft (diff_pages proc kpf a b n i addr first s).seen
    unfolding diff_pages
    diff_pages-keeps zero i addr first s l = l
    diff_pages-keeps (suc n) i addr first s l =
        diff_pages-keeps n (i + 1) (add64 addr proc.page_size) _ _ (either (same_page a b i))
      where
        either : (same : Bool) → IsLeft (if same then s else (diff_page proc kpf a b i addr s).1)
        either true = l
        either false = diff_page-IsLeft i addr s

    diff_pages-IsLeft :
        (n i addr : ℕ) (first : Bool) (s : Seen)
        → 0 < changed a b n i
        → IsLeft (diff_pages proc kpf a b n i addr first s).seen
    unfolding diff_pages
    diff_pages-IsLeft zero i addr first s h = elim h [ ]
    diff_pages-IsLeft (suc n) i addr first s h = elim (Bool-cases (same_page a b i)) [
      | inl same ↦
          diff_pages-IsLeft n (i + 1) (add64 addr proc.page_size) (first || not (same_page a b i))
            (if same_page a b i then s else (diff_page proc kpf a b i addr s).1) (later same)
      | inr other ↦
          diff_pages-keeps n (i + 1) (add64 addr proc.page_size) _ _
            (rw other (diff_page-IsLeft i addr s))
    ]
      where
        later : same_page a b i ≡ true → 0 < changed a b n (i + 1)
        later same = ground (arith, h, same_page-page_differs a b i)

-- Two snapshots of one range.
abbrev pub SameRange : PageStat → PageStat → Type 0
SameRange a b = (a.vma_start ≡ b.vma_start) × (a.vma_end ≡ b.vma_end)

-- How many of the pages of `a` have changed in `b`.
abbrev pub changed_pages : Proc → PageStat → PageStat → ℕ
changed_pages proc a b = changed a b (count_virt_pages proc a) 0

pub same_range :
    (proc : Proc) (kpf : KernelFlags) (a b : PageStat) (s : Seen)
    → SameRange a b
    → pagestat_print_diff proc kpf (some a) (some b) s ≡ diff_contents proc kpf a b s
unfolding pagestat_print_diff
same_range proc kpf a b s r = rw (differ r) refl
  where
    differ :
        SameRange a b → (differs a.vma_start b.vma_start || differs a.vma_end b.vma_end) ≡ false
    differ r = ground arith

-- For two snapshots of one range the result says whether a page changed, in its pagemap entry or in
-- the count or the flags of its frame, whatever the fields: a change of the sizes, flags, permissions, offset or name alone is printed and reported as none. And
-- the count of pages printed grows by two for each changed page.
pub pagestat_print_diff-changed :
    (proc : Proc) (kpf : KernelFlags) (a b : PageStat) (s : Seen)
    → SameRange a b
    → ((pagestat_print_diff proc kpf (some a) (some b) s).result
        ≡ not (changed_pages proc a b == 0))
      × ((pagestat_print_diff proc kpf (some a) (some b) s).seen.count
          ≡ s.count + 2 * changed_pages proc a b)
unfolding diff_contents
pagestat_print_diff-changed proc kpf a b s r =
    rw (same_range proc kpf a b s r)
      (diff_pages_lem proc kpf a b (count_virt_pages proc a) 0 a.vma_start false s)

pub pagestat_print_diff-IsLeft :
    (proc : Proc) (kpf : KernelFlags) (a b : PageStat) (s : Seen)
    → SameRange a b
    → ((i : ℕ) → get_or b.pagemaps i 0 < 2 ^ 64)
    → 0 < changed_pages proc a b
    → ((pagestat_print_diff proc kpf (some a) (some b) s).seen.last_addr ≡ invalid_value)
      × ((pagestat_print_diff proc kpf (some a) (some b) s).seen.last_map ≢ invalid_value)
unfolding diff_contents IsLeft
pagestat_print_diff-IsLeft proc kpf a b s r in_range h =
    rw (same_range proc kpf a b s r)
      (diff_pages-IsLeft proc kpf a b in_range (count_virt_pages proc a) 0 a.vma_start false s h)
