-- ===== src/ReadPageflags/Same.antt =====
-- read-pageflags/read-pageflags.c and pagestat/pagestat.c have the same routines twice: they agree.
use mm_exper.Base.{ℕ, ◌*◌, ◌≤◌, ◌≡◌, refl, ap, ◌∙◌, arith}
use mm_exper.Base.{not, ◌==◌, Option, none, some, List, [], ◌∷◌, length}
use mm_exper.Base.{Option-cases, Bool-cases, inl, inr, if◌then◌else◌}
use mm_exper.Base.Word.{u64, add64, ◌<<<◌}
use mm_exper.Base.Text.{Bytes, codes}
use mm_exper.Base.Proc.{Proc, WordFile}
use mm_exper.PageStat.Entry
use mm_exper.PageStat.Entry.Laws.{check_bit-eq}
use mm_exper.PageStat.Hex
use mm_exper.PageStat.PageTable
use mm_exper.ReadPageflags.Words.{
  first_or_invalid, check_bit, extract_pfn, read_u64, read_kpageflags, read_mapcount,
}
use mm_exper.ReadPageflags.Hex.{
  add_digit, parse_hex_loop, parse_hex, find_dash, extract_address_range,
}

check_bit-same : (v bit : ℕ) → check_bit v bit ≡ Entry.check_bit v bit
unfolding check_bit Entry.check_bit
check_bit-same v bit = refl

extract_pfn-same : (v : ℕ) → extract_pfn v ≡ Entry.get_pfn v
unfolding extract_pfn Entry.get_pfn Entry.has_pfn
extract_pfn-same v =
    ground (arith, check_bit-same v 62, check_bit-same v 63, check_bit-eq v 62 (omega arith))

-- `add_digit` is `hex_digit` with the shift.
abbrev shifted : ℕ → Option ℕ → Option ℕ
shifted ret none = none
shifted ret (some d) = some (add64 (ret <<< 4) d)

add_digit-hex_digit : (ret c : ℕ) → add_digit ret c ≡ shifted ret (Hex.hex_digit c)
unfolding add_digit Hex.hex_digit
add_digit-hex_digit ret c = ground arith

parse_hex_loop-same : (s : Bytes) (ret : ℕ) → parse_hex_loop ret s ≡ Hex.parse_hex_from ret s
unfolding parse_hex_loop Hex.parse_hex_from
parse_hex_loop-same [] ret = refl
parse_hex_loop-same (c ∷ s) ret = elim (Option-cases (Hex.hex_digit c)) [
  | inl e ↦ rw (digit e, parse_hex_loop, e, Hex.parse_hex_from) refl
  | inr (d, e) ↦
      rw (digit e, parse_hex_loop, e, Hex.parse_hex_from)
        (parse_hex_loop-same s (add64 (ret <<< 4) d))
]
  where
    digit : {o : Option ℕ} → Hex.hex_digit c ≡ o → add_digit ret c ≡ shifted ret o
    digit e = add_digit-hex_digit ret c ∙ ap (shifted ret) e

parse_hex-same : (s : Bytes) → parse_hex s ≡ Hex.parse_hex s
unfolding parse_hex Hex.parse_hex
parse_hex-same s = parse_hex_loop-same s 0

find_dash-same : (s : Bytes) → find_dash s ≡ Hex.split_at_dash s
unfolding find_dash Hex.split_at_dash
find_dash-same [] = refl
find_dash-same (c ∷ s) = rw (find_dash-same s) refl

pub extract_address_range-same : (s : Bytes) → extract_address_range s ≡ Hex.extract_address_range s
unfolding extract_address_range Hex.extract_address_range
extract_address_range-same s = elim (Option-cases (Hex.split_at_dash s)) [
  | inl e ↦ rw (find_dash-same s ∙ e, e, extract_address_range, Hex.extract_address_range) refl
  | inr ((a, b), e) ↦
      rw (find_dash-same s ∙ e, e, extract_address_range, Hex.extract_address_range)
        (rw (parse_hex-same a, parse_hex-same b) refl)
]

-- `fread` returns no more words than it is asked for.
abbrev pub IsFread : WordFile → Type 0
IsFread fp = (offset count : ℕ) → length (fp.read offset count) ≤ count

first-same :
    (ws : List ℕ)
    → length ws ≤ 1
    → first_or_invalid ws ≡ PageTable.first_word (if not (length ws == 1) then none else some ws)
first-same [] h = refl
first-same (w ∷ []) h = refl
first-same (w ∷ v ∷ ws) h = absurd (omega arith)

module _ (proc : Proc)
    (reads : (path : Bytes) (fp : WordFile) → proc.words path ≡ some fp → IsFread fp) where
  read_u64-same :
      (path : Bytes) (index : ℕ)
      → read_u64 proc path (u64 (index * 8)) ≡ PageTable.read_u64 proc path index
  unfolding read_u64 PageTable.read_u64 PageTable.read_u64s
  read_u64-same path index = elim (Option-cases (proc.words path)) [
    | inl e ↦ rw (e, read_u64, PageTable.read_u64, PageTable.read_u64s) refl
    | inr (fp, e) ↦
        rw (e, read_u64, PageTable.read_u64, PageTable.read_u64s)
          (elim (Bool-cases (fp.seek (u64 (index * 8)))) [
            | inl sought ↦
                rw sought
                  (first-same (fp.read (u64 (index * 8)) 1) (reads path fp e (u64 (index * 8)) 1))
            | inr failed ↦ rw failed refl
          ])
  ]

-- The two files have the same routines twice, and they agree on every input: the frame number of an
-- entry, hexadecimal numbers, address ranges, and, if `fread` returns no more words than it is asked
-- for, the flags and counts of a frame.
twice_same :
    (proc : Proc) (v : ℕ) (s : Bytes)
    → ((path : Bytes) (fp : WordFile) → proc.words path ≡ some fp → IsFread fp)
    → (extract_pfn v ≡ Entry.get_pfn v)
      × (parse_hex s ≡ Hex.parse_hex s)
      × (extract_address_range s ≡ Hex.extract_address_range s)
      × (read_kpageflags proc v ≡ PageTable.read_u64 proc (codes "/proc/kpageflags") v)
      × (read_mapcount proc v ≡ PageTable.read_u64 proc (codes "/proc/kpagecount") v)
unfolding read_kpageflags read_mapcount
twice_same proc v s reads = (
  extract_pfn-same v,
  parse_hex-same s,
  extract_address_range-same s,
  read_u64-same proc reads (codes "/proc/kpageflags") v,
  read_u64-same proc reads (codes "/proc/kpagecount") v,
)
