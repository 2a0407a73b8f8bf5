-- ===== src/ReadPageflags/Maps.antt =====
-- read-pageflags/read-pageflags.c: the line of /proc/self/maps for an address.
pub mod Find
use mm_exper.Base.{ℕ, Bool, true, false, ◌&&◌, ◌==◌, leb, ltb, if◌then◌else◌}
use mm_exper.Base.{Option, none, some, List, [], ◌∷◌}
use mm_exper.Base.Word.{invalid_value}
use mm_exper.Base.Text.{Bytes, codes, scan_word, scan_ulong}
use mm_exper.Base.Proc.{Proc}
use mm_exper.ReadPageflags.Hex.{parse_hex, extract_address_range}

-- `struct map_data`.
pub record MapData : Type 0 where
  pub perms : Bytes
  pub offset : ℕ
  pub inode : ℕ
  pub name : Bytes

-- What `memset` leaves.
abbrev pub zeroed : MapData
zeroed = record { perms = []; offset = 0; inode = 0; name = [] }

-- What `sscanf (line, "%s %s %s %s %lu %s", …)` stores in `out`, one conversion after the other until
-- one fails, and the text of the offset if it returns 5 or more.
pub record Scanned : Type 0 where
  pub out : MapData
  pub offset_text : Option Bytes

abbrev after_inode : MapData → Bytes → Option (Bytes × Bytes) → Scanned
after_inode out offset none = record { out = out; offset_text = some offset }
after_inode out offset (some (name, r)) = record {
  out = record out { name = name };
  offset_text = some offset;
}

abbrev after_dev : MapData → Bytes → Option (ℕ × Bytes) → Scanned
after_dev out offset none = record { out = out; offset_text = none }
after_dev out offset (some (inode, r)) =
    after_inode (record out { inode = inode }) offset (scan_word r)

abbrev after_offset : MapData → Option (Bytes × Bytes) → Scanned
after_offset out none = record { out = out; offset_text = none }
after_offset out (some (offset, r)) = elim (scan_word r) [
  | none ↦ record { out = out; offset_text = none }
  | some (dev_num, r') ↦ after_dev out offset (scan_ulong r')
]

abbrev after_range : Option (Bytes × Bytes) → Scanned
after_range none = record { out = zeroed; offset_text = none }
after_range (some (range, r)) = elim (scan_word r) [
  | none ↦ record { out = zeroed; offset_text = none }
  | some (perms, r') ↦ after_offset (record zeroed { perms = perms }) (scan_word r')
]

unfoldable pub scan_maps_line : Bytes → Scanned
scan_maps_line line = after_range (scan_word line)

-- The result, and what is left in `*out`.
unfoldable pub extract_mapdata : Bytes → Bool × MapData
extract_mapdata line =
    let s = scan_maps_line line in
    elim s.offset_text [
      | none ↦ (false, s.out)
      | some offset ↦
          if parse_hex offset == invalid_value
          then (false, record s.out { offset = 0 })
          else (true, record s.out { offset = parse_hex offset })
    ]

-- `buf` after `sscanf (line, "%s", buf)`, if it held `held` before.
abbrev pub word_or : Bytes → Bytes → Bytes
word_or held line = elim (scan_word line) [ none ↦ held | some (w, rest) ↦ w ]

-- What the loop ends with: the jump to `out` from a line with no range, the line found, or the end of
-- the file.
pub data Search : Type 0 where
  bad_line : Search
  found : Bytes → Search
  exhausted : Search

abbrev pub on_range : ℕ → Option (ℕ × ℕ) → Bytes → Search → Search
on_range vaddr none line rest = bad_line
on_range vaddr (some (from, to)) line rest =
    if leb from vaddr && ltb vaddr to then found line else rest

-- The loop. `buf` is a local of the loop's body that is not initialised: `kept` says what it holds in
-- a round, given what it held at the end of the round before.
unfoldable pub find_line : (Bytes → Bytes) → ℕ → Bytes → List Bytes → Search
find_line kept vaddr held [] = exhausted
find_line kept vaddr held (line ∷ lines) =
    let buf = word_or held line in
    let rest = find_line kept vaddr (kept buf) lines in
    on_range vaddr (extract_address_range buf) line rest

-- The result, and what is stored in `*out`, if anything is.
abbrev pub on_search : Search → Bool × Option MapData
on_search bad_line = (false, none)
on_search exhausted = (false, none)
on_search (found line) = let (ret, out) = extract_mapdata line in (ret, some out)

unfoldable pub read_mapdata : Proc → (Bytes → Bytes) → Bytes → ℕ → Bool × Option MapData
read_mapdata proc kept held ptr = elim (proc.lines (codes "/proc/self/maps")) [
  | none ↦ (false, none)
  | some lines ↦ on_search (find_line kept ptr held lines)
]
