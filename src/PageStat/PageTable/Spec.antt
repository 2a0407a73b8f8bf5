-- ===== src/PageStat/PageTable/Spec.antt =====
-- What the arrays of a snapshot should hold, by the bits of the entries and the words of the files.
use mm_exper.Base.{ℕ, ◌+◌, ◌*◌, ◌/◌, ◌%◌, ◌^◌, ◌≡◌, true, ◌&&◌, ◌==◌, if◌then◌else◌}
use mm_exper.Base.{Option, none, some, List, [], ◌∷◌, length}
use mm_exper.Base.Word.{u64, invalid_value}
use mm_exper.Base.Text.{Bytes, codes}
use mm_exper.Base.Proc.{Proc, WordFile}
use mm_exper.PageStat.Data.{PageStat}
use mm_exper.PageStat.PageTable.{pagemap_path}

-- The frame that an entry names: bits 0 to 54, if bit 62 is clear and bit 63 is set.
abbrev pub frame_of : ℕ → Option ℕ
frame_of entry =
    if (entry / 2 ^ 62 % 2 == 0) && (entry / 2 ^ 63 % 2 == 1) then some (entry % 2 ^ 55) else none

-- What a file of 64-bit words holds at a place: INVALID_VALUE where it cannot be opened, set to the place,
-- or read.
abbrev pub single : List ℕ → ℕ
single [] = invalid_value
single (w ∷ []) = w
single (w ∷ v ∷ ws) = invalid_value

abbrev pub read_at : ℕ → Option WordFile → ℕ
read_at index none = invalid_value
read_at index (some fp) =
    if fp.seek (8 * index) then single (fp.read (8 * index) 1) else invalid_value

-- The word of an entry's frame in a file; 0 if the entry names none.
abbrev pub word_of_frame : Option WordFile → Option ℕ → ℕ
word_of_frame file none = 0
word_of_frame file (some frame) = read_at frame file

-- The number of entries that name a frame.
abbrev pub resident : List ℕ → ℕ
resident [] = 0
resident (e ∷ es) = (elim (frame_of e) [ none ↦ 0 | some frame ↦ 1 ]) + resident es

-- The words of the frames that entries name, in a file.
abbrev pub words_of_frames : Option WordFile → List ℕ → List ℕ
words_of_frames file [] = []
words_of_frames file (e ∷ es) = word_of_frame file (frame_of e) ∷ words_of_frames file es

-- A snapshot whose arrays are filled in from `before`: one entry for each page of its size, from the
-- pagemap; the words that the other two files hold for the frames of the entries; and the resident size is
-- that of the entries that name a frame, marked where it differs from what smaps said.
pub record IsFilled (proc : Proc) (pid : Bytes) (before ps : PageStat) : Type 0 where
  pub pages : length ps.pagemaps ≡ u64 (before.vm_size * 1024) / proc.page_size
  pub entries :
      (fp : WordFile)
      → proc.words (pagemap_path pid) ≡ some fp
      → fp.read
          (u64 (before.vma_start / proc.page_size * 8))
          (u64 (before.vm_size * 1024) / proc.page_size)
        ≡ ps.pagemaps
  pub counts : ps.kpagecounts ≡ words_of_frames (proc.words (codes "/proc/kpagecount")) ps.pagemaps
  pub flags : ps.kpageflags ≡ words_of_frames (proc.words (codes "/proc/kpageflags")) ps.pagemaps
  pub resident_size : ps.rss ≡ u64 (resident ps.pagemaps * proc.page_size) / 1024
  pub marked : ps.rss_counted ≡ (if before.rss == ps.rss then before.rss_counted else true)
  pub same_size : ps.vm_size ≡ before.vm_size
