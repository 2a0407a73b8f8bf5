-- ===== src/PageStat/PageTable/Laws.antt =====
-- The arrays of a snapshot: their lengths, what stands at each page, and the resident size.
use native.Mathlib.Nat.{zero-add}
use mathlib.Core.Path.{subst}
use mm_exper.Base.{ℕ, ◌+◌, ◌*◌, ◌/◌, ◌%◌, ◌^◌, ◌<◌, ◌≡◌, ◌⊎◌, refl, arith, ap, ◌∙◌, sym}
use mm_exper.Base.{true, false, not, ◌==◌, Bool-cases, if◌then◌else◌, Option-cases, inl, inr}
use mm_exper.Base.{Option, none, some, List, [], ◌∷◌, length, map}
use mm_exper.Base.Word.{u64, invalid_value}
use mm_exper.Base.Text.{Bytes, codes}
use mm_exper.Base.Proc.{Proc, WordFile}
use mm_exper.PageStat.Data.{PageStat}
use mm_exper.PageStat.Entry.{has_pfn, get_pfn}
use mm_exper.PageStat.PageTable.Spec.{
  frame_of, single, read_at, word_of_frame, resident, words_of_frames, IsFilled,
}
use mm_exper.PageStat.Entry.Laws.{get_pfn_lem}
use mm_exper.PageStat.PageTable.{
  count_pfns, read_u64s, read_u64, first_word, count_virt_pages, tweak_counts, frame_word,
  get_pagetable_fields, pagemap_path,
}

-- `get_pfn` is INVALID_VALUE, or the frame.
frame_cases :
    (e : ℕ)
    → ((frame_of e ≡ none) × (has_pfn e ≡ false) × (get_pfn e ≡ invalid_value))
      ⊎ ((frame_of e ≡ some (e % 2 ^ 55)) × (has_pfn e ≡ true) × (get_pfn e ≡ e % 2 ^ 55))
frame_cases e = ground (arith, get_pfn_lem e)

read_single :
    (words : List ℕ)
    → first_word (if not (length words == 1) then none else some words) ≡ single words
read_single [] = refl
read_single (w ∷ []) = refl
read_single (w ∷ v ∷ ws) = ground arith

read_frame :
    (proc : Proc) (path : Bytes) (frame : ℕ)
    → frame < 2 ^ 55
    → first_word (read_u64s proc path frame 1) ≡ read_at frame (proc.words path)
unfolding read_u64s
read_frame proc path frame h = elim (Option-cases (proc.words path)) [
  | inl n ↦ rw (n, read_u64s) refl
  | inr (fp, o) ↦
      rw (o, read_u64s, place)
        (elim (Bool-cases (fp.seek (8 * frame))) [
          | inl sought ↦ rw sought (read_single (fp.read (8 * frame) 1))
          | inr refused ↦ rw refused refl
        ])
]
  where
    place : u64 (frame * 8) ≡ 8 * frame
    place = omega (arith, h)

frame_word_lem :
    (proc : Proc) (path : Bytes) (e : ℕ)
    → frame_word proc path e ≡ word_of_frame (proc.words path) (frame_of e)
unfolding frame_word read_u64 read_u64s
frame_word_lem proc path e = elim (frame_cases e) [
  | inl (f, h, g) ↦ rw (g, f) (ground arith)
  | inr (f, h, g) ↦ rw (g, f) (ground (arith, read_frame proc path (e % 2 ^ 55)))
]

count_pfns-resident : (n : ℕ) (es : List ℕ) → count_pfns n es ≡ n + resident es
unfolding count_pfns
count_pfns-resident n [] = omega arith
count_pfns-resident n (e ∷ es) = elim (frame_cases e) [
  | inl (f, h, g) ↦ rw (h, f) (omega (arith, count_pfns-resident n es))
  | inr (f, h, g) ↦ rw (h, f) (omega (arith, count_pfns-resident (n + 1) es))
]

-- What is read has the length that was asked for.
length-read_u64s :
    (proc : Proc) (path : Bytes) (offset count : ℕ) {ws : List ℕ}
    → read_u64s proc path offset count ≡ some ws
    → length ws ≡ count
unfolding read_u64s
length-read_u64s proc path offset count {ws} e = elim (Option-cases (proc.words path)) [
  | inl n ↦ cc (rw (n, read_u64s) at e)
  | inr (fp, o) ↦ ground (arith, o)
]

-- What is read is what the file holds there.
words-read_u64s :
    (proc : Proc) (path : Bytes) (offset count : ℕ) {ws : List ℕ}
    → read_u64s proc path offset count ≡ some ws
    → (fp : WordFile) → proc.words path ≡ some fp
    → fp.read (u64 (offset * 8)) count ≡ ws
unfolding read_u64s
words-read_u64s proc path offset count {ws} e fp o = ground (arith, rw (read_u64s, o) at e)

map-frame_word :
    (proc : Proc) (path : Bytes) (es : List ℕ)
    → map (frame_word proc path) es ≡ words_of_frames (proc.words path) es
map-frame_word proc path [] = refl
map-frame_word proc path (e ∷ es) =
    rw (frame_word_lem proc path e, map-frame_word proc path es) refl

-- The fields after `tweak_counts`.
tweak_counts_lem :
    (proc : Proc) (ps : PageStat)
    → ((tweak_counts proc ps).rss ≡ u64 (resident ps.pagemaps * proc.page_size) / 1024)
      × ((tweak_counts proc ps).rss_counted
          ≡ (if ps.rss == (tweak_counts proc ps).rss then ps.rss_counted else true))
      × ((tweak_counts proc ps).vm_size ≡ ps.vm_size)
      × ((tweak_counts proc ps).pagemaps ≡ ps.pagemaps)
      × ((tweak_counts proc ps).kpagecounts ≡ ps.kpagecounts)
      × ((tweak_counts proc ps).kpageflags ≡ ps.kpageflags)
unfolding tweak_counts
tweak_counts_lem proc ps =
    rw (count_pfns-resident 0 ps.pagemaps, zero-add)
      (ground arith, ground arith, ground arith, ground arith, ground arith, ground arith)

module _ (proc : Proc) (pid : Bytes) (before : PageStat) where
  -- The snapshot before `tweak_counts`.
  abbrev loaded : List ℕ → PageStat
  loaded entries = record before {
    pagemaps = entries;
    kpagecounts = map (frame_word proc (codes "/proc/kpagecount")) entries;
    kpageflags = map (frame_word proc (codes "/proc/kpageflags")) entries;
  }

  abbrev entries_read : Option (List ℕ)
  entries_read =
      read_u64s proc (pagemap_path pid) (before.vma_start / proc.page_size)
        (count_virt_pages proc before)

  loaded-IsFilled :
      (entries : List ℕ)
      → entries_read ≡ some entries
      → IsFilled proc pid before (tweak_counts proc (loaded entries))
  unfolding count_virt_pages
  loaded-IsFilled entries r =
      let t = tweak_counts_lem proc (loaded entries) in
      record {
        pages = rw (t.3) (length-read_u64s proc _ _ _ r);
        entries = λ fp o. words-read_u64s proc _ _ _ r fp o ∙ sym t.3;
        counts =
            t.4
            ∙ map-frame_word proc (codes "/proc/kpagecount") entries
            ∙ ap (words_of_frames (proc.words (codes "/proc/kpagecount"))) (sym t.3);
        flags =
            t.5
            ∙ map-frame_word proc (codes "/proc/kpageflags") entries
            ∙ ap (words_of_frames (proc.words (codes "/proc/kpageflags"))) (sym t.3);
        resident_size = rw (t.3) t.0;
        marked = t.1;
        same_size = t.2;
      }

  from_read :
      (o : Option (List ℕ)) (ps : PageStat)
      → entries_read ≡ o
      → get_pagetable_fields proc pid before ≡ some ps
      → IsFilled proc pid before ps
  unfolding get_pagetable_fields
  from_read none ps r e = cc (rw (r, get_pagetable_fields) at e)
  from_read (some entries) ps r e =
      let same : tweak_counts proc (loaded entries) ≡ ps = cc (rw (r, get_pagetable_fields) at e) in
      subst (IsFilled proc pid before) same (loaded-IsFilled entries r)

-- Where `get_pagetable_fields` succeeds: the array of entries is what the pagemap of the process holds, one
-- entry for each page; the arrays of counts and flags are the words that the two files hold for the
-- frame that bits 0 to 54 of an entry name, 0 if bits 62 and 63 say that it names none, INVALID_VALUE if
-- the word cannot be read; and the resident size is that of the entries that name a frame, marked where it
-- differs from what smaps said.
pub get_pagetable_fields-IsFilled :
    (proc : Proc) (pid : Bytes) (before : PageStat) {ps : PageStat}
    → get_pagetable_fields proc pid before ≡ some ps
    → IsFilled proc pid before ps
get_pagetable_fields-IsFilled proc pid before {ps} e =
    from_read proc pid before (entries_read proc pid before) ps refl e
