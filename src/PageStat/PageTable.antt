-- ===== src/PageStat/PageTable.antt =====
-- pagestat/pagestat.c: the pagemap of a mapping, with the counts and flags of its frames.
pub mod Spec
pub mod Laws
use mm_exper.Base.{ℕ, suc, ◌+◌, ◌*◌, ◌/◌, Bool, true, not, ◌==◌, if◌then◌else◌}
use mm_exper.Base.{Option, none, some, List, [], ◌∷◌, ◌++◌, length, map}
use mm_exper.Base.Word.{u64, invalid_value}
use mm_exper.Base.Text.{Bytes, codes}
use mm_exper.Base.Proc.{Proc, WordFile}
use mm_exper.PageStat.Data.{PageStat}
use mm_exper.PageStat.Entry.{has_pfn, get_pfn}

-- The number of entries that hold a frame, counted up from `n`.
unfoldable pub count_pfns : ℕ → List ℕ → ℕ
count_pfns n [] = n
count_pfns n (entry ∷ entries) = count_pfns (if has_pfn entry then n + 1 else n) entries

-- "/proc/", the pid, and "/pagemap".
abbrev pub pagemap_path : Bytes → Bytes
pagemap_path pid = codes "/proc/" ++ pid ++ codes "/pagemap"

-- `fread` of `count` words and the test of its result.
abbrev pub read_exactly : WordFile → ℕ → ℕ → Option (List ℕ)
read_exactly fp offset count =
    let read = fp.read offset count in if not (length read == count) then none else some read

abbrev pub first_word : Option (List ℕ) → ℕ
first_word none = invalid_value
first_word (some []) = invalid_value
first_word (some (w ∷ ws)) = w

module _ (proc : Proc) where
  -- `none` is `return false`; the messages on stderr are left out.
  unfoldable pub read_u64s : Bytes → ℕ → ℕ → Option (List ℕ)
  read_u64s path offset count = elim (proc.words path) [
    | none ↦ none
    | some fp ↦
        if not (fp.seek (u64 (offset * 8))) then none else read_exactly fp (u64 (offset * 8)) count
  ]

  unfoldable pub read_u64 : Bytes → ℕ → ℕ
  unfolding read_u64s
  read_u64 path offset = first_word (read_u64s path offset 1)

  unfoldable pub count_virt_pages : PageStat → ℕ
  count_virt_pages ps = u64 (ps.vm_size * 1024) / proc.page_size

  unfoldable pub tweak_counts : PageStat → PageStat
  unfolding count_pfns
  tweak_counts ps =
      let rss_kib = u64 (count_pfns 0 ps.pagemaps * proc.page_size) / 1024 in
      if ps.rss == rss_kib then ps else record ps { rss = rss_kib; rss_counted = true }

  -- The word that the file at `path` has for an entry's frame; 0, from `calloc`, if it has none.
  unfoldable pub frame_word : Bytes → ℕ → ℕ
  frame_word path entry =
      let pfn = get_pfn entry in if pfn == invalid_value then 0 else read_u64 path pfn

  -- `none` is `return false`.
  unfoldable pub get_pagetable_fields : Bytes → PageStat → Option PageStat
  get_pagetable_fields pid ps =
      let count = count_virt_pages ps in
      let offset = ps.vma_start / proc.page_size in
      elim (read_u64s (pagemap_path pid) offset count) [
        | none ↦ none
        | some entries ↦ some (
            tweak_counts (record ps {
              pagemaps = entries;
              kpagecounts = map (frame_word (codes "/proc/kpagecount")) entries;
              kpageflags = map (frame_word (codes "/proc/kpageflags")) entries;
            }))
      ]
