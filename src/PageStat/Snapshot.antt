-- ===== src/PageStat/Snapshot.antt =====
-- pagestat/pagestat.c: a snapshot of one mapping, and of all of them. An open smaps file is the list
-- of the lines not yet read; a function returns its result with the lines that it leaves.
pub mod Laws
pub mod All
use mm_exper.Base.{ℕ, zero, suc, Bool, ◌&&◌, ◌||◌, not, ◌==◌, leb, ltb, if◌then◌else◌}
use mm_exper.Base.{Option, none, some, List, [], ◌∷◌, ◌++◌}
use mm_exper.Base.Word.{invalid_value}
use mm_exper.Base.Text.{Bytes, codes, scan_word}
use mm_exper.Base.Proc.{Proc}
use mm_exper.PageStat.Data.{PageStat, cleared, max_maps}
use mm_exper.PageStat.Hex.{extract_address_range}
use mm_exper.PageStat.Smaps.{
  Locals, is_smap_header_field, get_smap_header_fields, get_smap_other_fields,
}
use mm_exper.PageStat.PageTable.{get_pagetable_fields}

-- A call that may stop the program.
pub data Run (A : Type 0) : Type 0 where
  fault : Run A
  done : A → Run A

abbrev pub smaps_path : Bytes → Bytes
smaps_path pid = codes "/proc/" ++ pid ++ codes "/smaps"

-- `open_smaps`.
unfoldable pub open_smaps : Proc → Bytes → Option (List Bytes)
open_smaps proc pid = proc.lines (smaps_path pid)

-- Whether a header's range is the one asked for; `INVALID_VALUE` asks for the first.
abbrev pub wanted : ℕ → ℕ → ℕ → Bool
wanted vaddr from to = vaddr == invalid_value || (leb from vaddr && ltb vaddr to)

-- `buf` after `sscanf (line, "%s", buf)`.
unfoldable pub word_or : Bytes → Bytes → Bytes
word_or held line = elim (scan_word line) [ none ↦ held | some (w, rest) ↦ w ]

-- What the search for a header ends with: a range and its line, or the jump to `out`; with the lines
-- that are left.
pub data Search : Type 0 where
  found : ℕ → ℕ → Bytes → List Bytes → Search
  gone : List Bytes → Search

abbrev pub Taken : Type 0
Taken = Option PageStat × List Bytes

-- `wanted` at the range that `extract_address_range` gave.
abbrev on_range : ℕ → Option (ℕ × ℕ) → Bytes → List Bytes → Search → Search
on_range vaddr none line lines rest = gone lines
on_range vaddr (some (from, to)) line lines rest =
    if wanted vaddr from to then found from to line lines else rest

module _ (locals : Locals) where
  -- The loop, with `held` in `buf` before the round.
  unfoldable pub find_header : ℕ → Bytes → List Bytes → Search
  find_header vaddr held [] = gone []
  find_header vaddr held (line ∷ lines) =
      let buf = word_or held line in
      let rest = find_header vaddr (locals.kept_word buf) lines in
      if not (is_smap_header_field buf)
      then rest
      else on_range vaddr (extract_address_range buf) line lines rest

module _ (proc : Proc) (locals : Locals) (pid : Bytes) where
  -- From the page-table fields on.
  unfoldable pub finish : Taken → Taken
  finish (none, lines) = (none, lines)
  finish (some ps, lines) = (get_pagetable_fields proc pid ps, lines)

  unfoldable pub fill : Option PageStat → List Bytes → Taken
  fill none lines = (none, lines)
  fill (some ps) lines = finish (get_smap_other_fields locals ps lines)

  unfoldable pub on_search : Search → Taken
  on_search (gone rest) = (none, rest)
  on_search (found from to line lines) = fill (get_smap_header_fields (cleared from to) line) lines

  -- On a file that is open; a null file gives a null result at once.
  unfoldable pub get_pagestat_snapshot : List Bytes → ℕ → Taken
  get_pagestat_snapshot lines vaddr = on_search (find_header locals vaddr locals.first_word lines)

  -- The two public calls close the file that they opened, and `fclose` of a null file is a fault.
  unfoldable pub pagestat_snapshot_remote : ℕ → Run (Option PageStat)
  pagestat_snapshot_remote vaddr = elim (open_smaps proc pid) [
    | none ↦ fault
    | some lines ↦ done (get_pagestat_snapshot lines vaddr).0
  ]

  -- The loop of `pagestat_snapshot_all` with `n` places left and `pss` stored; the places behind a
  -- null pointer stay null. `none` is the null result after "More than … maps".
  unfoldable pub snapshot_loop : ℕ → List PageStat → List Bytes → Option (List PageStat)
  snapshot_loop zero pss lines = none
  snapshot_loop (suc n) pss lines =
      let t = get_pagestat_snapshot lines invalid_value in
      elim t.0 [ none ↦ some pss | some ps ↦ snapshot_loop n (pss ++ ps ∷ []) t.1 ]

  unfoldable pub pagestat_snapshot_all : Option (List PageStat)
  pagestat_snapshot_all = elim (open_smaps proc pid) [
    | none ↦ some []
    | some lines ↦ snapshot_loop max_maps [] lines
  ]

-- Of the process itself.
unfoldable pub pagestat_snapshot : Proc → Locals → ℕ → Run (Option PageStat)
unfolding pagestat_snapshot_remote
pagestat_snapshot proc locals vaddr = pagestat_snapshot_remote proc locals (codes "self") vaddr
