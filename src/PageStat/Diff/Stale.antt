-- ===== src/PageStat/Diff/Stale.antt =====
-- The static variables that a comparison leaves, and the listing that starts from them.
use mathlib.Core.Path.{ap₂}
use mm_exper.Base.{ℕ, zero, suc, ◌+◌, ◌-◌, ◌*◌, ◌^◌, ◌≤◌, ◌<◌, ◌≡◌, ◌≢◌, ap, ◌∙◌, arith}
use mm_exper.Base.{true, List, [], ◌∷◌, ◌++◌, get_or, some}
use mm_exper.Base.Word.{add64, invalid_value}
use mm_exper.Base.Proc.{Proc}
use mm_exper.PageStat.Data.{PageStat}
use mm_exper.PageStat.PageTable.{count_virt_pages}
use mm_exper.PageStat.Print.{
  Seen, Line, mapping, repeats, see, print_abbrev, is_new, print_mapping_terminate, print_all_pages,
}
use mm_exper.PageStat.Print.Listing.{listing_at, listing_at-suc, print_mapping-new}
use mm_exper.PageStat.Print.Flags.{KernelFlags}
use mm_exper.PageStat.Diff.{pagestat_print_diff}
use mm_exper.PageStat.Diff.Laws.{
  SameRange, changed_pages, pagestat_print_diff-changed, pagestat_print_diff-IsLeft,
}

module _ (proc : Proc) (ps : PageStat) (t : Seen) (m : t.last_map ≢ invalid_value) where
  abbrev Starts : List Line → Type 0
  Starts lines = (rest : List Line) × (lines ≡ repeats t.last_addr (t.count - 1) ∷ rest)

  flush_repeats : 2 < t.count → print_abbrev t ≡ repeats t.last_addr (t.count - 1) ∷ []
  flush_repeats c = unfold print_abbrev in ground (arith, c, m)

  first_page :
      (n : ℕ)
      → 2 < t.count
      → is_new t (get_or ps.pagemaps 0 0) ≡ true
      → 0 < n
      → Starts (listing_at proc ps n 0 ps.vma_start t)
  first_page zero c new p = elim p [ ]
  first_page (suc n) c new p = (
    _,
    listing_at-suc proc ps n 0 ps.vma_start t _ _ (print_mapping-new proc ps ps.vma_start 0 t new)
        ∙ ap
            (λ (ls : List Line).
              (ls ++ mapping ps.vma_start 0 (get_or ps.pagemaps 0 0) ∷ [])
              ++ listing_at proc ps n (0 + 1) (add64 ps.vma_start proc.page_size)
                  (see ps.vma_start 0 (get_or ps.pagemaps 0 0) 0))
            (flush_repeats c),
  )

  -- A listing that starts with more than two pages pending, at a page that is new.
  stale_lines :
      2 < t.count
      → is_new t (get_or ps.pagemaps 0 0) ≡ true
      → 0 < count_virt_pages proc ps
      → Starts (print_all_pages proc ps t).0
  unfolding print_all_pages print_mapping_terminate
  stale_lines c new p = first_page (count_virt_pages proc ps) c new p

-- A comparison of two snapshots of one range, with 64-bit entries, in which at least two pages
-- changed leaves its pages pending: the next listing, if it has a page and its first page does not
-- go on with the last page compared, opens with a line that claims that many repetitions, at the
-- address `INVALID_VALUE`.
pub listing-after_diff :
    (proc : Proc) (kpf : KernelFlags) (a b ps : PageStat) (s : Seen)
    → SameRange a b
    → ((i : ℕ) → get_or b.pagemaps i 0 < 2 ^ 64)
    → 2 ≤ changed_pages proc a b
    → 0 < count_virt_pages proc ps
    → is_new (pagestat_print_diff proc kpf (some a) (some b) s).seen (get_or ps.pagemaps 0 0) ≡ true
    → (rest : List Line) × ((print_all_pages proc ps
          (pagestat_print_diff proc kpf (some a) (some b) s).seen).0
        ≡ repeats invalid_value (s.count + 2 * changed_pages proc a b - 1) ∷ rest)
listing-after_diff proc kpf a b ps s r in_range two p new =
    let counted = (pagestat_print_diff-changed proc kpf a b s r).1 in
    let left = pagestat_print_diff-IsLeft proc kpf a b s r in_range (omega arith) in
    let found =
      stale_lines proc ps (pagestat_print_diff proc kpf (some a) (some b) s).seen left.1
        (omega arith) new p in
    (found.0, found.1 ∙ ap₂ (λ (x y : ℕ). repeats x (y - 1) ∷ found.0) left.0 counted)
