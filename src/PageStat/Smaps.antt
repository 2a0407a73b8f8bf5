-- ===== src/PageStat/Smaps.antt =====
-- pagestat/pagestat.c: the lines of /proc/PID/smaps, a header line for each mapping and the field
-- lines below it.
pub mod Flags
pub mod Loop
use mm_exper.Base.{ℕ, zero, suc, ◌+◌, ◌-◌, Bool, true, false, not, ◌||◌, ◌==◌, if◌then◌else◌}
use mm_exper.Base.{Option, none, some, List, [], ◌∷◌, length, get_or, take, drop}
use mm_exper.Base.Text.{Bytes, codes, str_eq, scan_word, scan_ulong}
use mm_exper.PageStat.Data.{PageStat}
use mm_exper.PageStat.Hex.{parse_hex}

-- `line[len - 1] != ':'`. The callers pass words, which are not empty; the byte in front of an
-- empty buffer is taken for no colon.
unfoldable pub is_smap_header_field : Bytes → Bool
is_smap_header_field [] = true
is_smap_header_field (c ∷ []) = not (c == b':')
is_smap_header_field (c ∷ d ∷ cs) = is_smap_header_field (d ∷ cs)

infixl 5 ◌>>=◌
abbrev ◌>>=◌ {ℓ κ} : {A : Type ℓ} {B : Type κ} → Option A → (A → Option B) → Option B
none >>= f = none
some a >>= f = f a

-- The words of a header line that are used. `none` is a `sscanf` result below 5.
pub record Header : Type 0 where
  pub perms : Bytes
  pub offset : Bytes
  pub name : Option Bytes

abbrev name_word : Option (Bytes × Bytes) → Option Bytes
name_word none = none
name_word (some (name, rest)) = some name

-- `sscanf (line, "%s %s %s %s %lu %s", …)`.
unfoldable pub scan_header : Bytes → Option Header
scan_header line = do
  (range, r₁) ← scan_word line
  (perms, r₂) ← scan_word r₁
  (offset, r₃) ← scan_word r₂
  (dev_num, r₄) ← scan_word r₃
  (inode, r₅) ← scan_ulong r₄
  some (record { perms = perms; offset = offset; name = name_word (scan_word r₅) })

-- `none` is `return false`. The offset is stored as `parse_hex` returns it.
unfoldable pub get_smap_header_fields : PageStat → Bytes → Option PageStat
get_smap_header_fields ms line = do
  h ← scan_header line
  some (record ms { offset = parse_hex h.offset; perms = h.perms; name = h.name })

-- The locals that `sscanf (line, "%s %lu %s", key, &size, unit)` stores to, one after the other
-- until a conversion fails; a local that is not reached keeps what it held.
pub record Scratch : Type 0 where
  pub key : Bytes
  pub size : ℕ
  pub unit : Bytes

unfoldable pub scan_field : Scratch → Bytes → Scratch
scan_field s line = elim (scan_word line) [
  | none ↦ s
  | some (key, r₁) ↦ elim (scan_ulong r₁) [
    | none ↦ record s { key = key }
    | some (size, r₂) ↦ elim (scan_word r₂) [
      | none ↦ record s { key = key; size = size }
      | some (unit, r₃) ↦ record { key = key; size = size; unit = unit }
    ]
  ]
]

-- `sizeof ("VmFlags: ")`, the final zero included.
abbrev pub flags_offset : ℕ
flags_offset = 10

-- The loop over `count` from above: the last of that many bytes from `line[offset]` on that is
-- neither a space nor a newline, counted from 1.
unfoldable pub trim : Bytes → ℕ → ℕ
trim line zero = 0
trim line (suc n) =
    let chr = get_or line (flags_offset + suc n - 1) 0 in
    let rest = trim line n in if not (chr == b'\n' || chr == b' ') then suc n else rest

abbrev pub flags_of : Bytes → ℕ → Option Bytes
flags_of line zero = none
flags_of line (suc n) = some (take (suc n + 1) (drop (flags_offset - 1) line))

-- The flags of a "VmFlags:" line; `none` is `return false`.
unfoldable pub vm_flags_text : Bytes → Option Bytes
unfolding trim
vm_flags_text line = flags_of line (trim line (length line - flags_offset))

-- The chain of comparisons with the key.
unfoldable pub store_field : PageStat → Bytes → Scratch → Option PageStat
store_field ms line s =
    if str_eq s.key (codes "Size:")
    then some (record ms { vm_size = s.size })
    else if str_eq s.key (codes "Rss:")
    then some (record ms { rss = s.size })
    else if str_eq s.key (codes "Referenced:")
    then some (record ms { referenced = s.size })
    else if str_eq s.key (codes "Anonymous:")
    then some (record ms { anon = s.size })
    else if str_eq s.key (codes "AnonHugePages:")
    then some (record ms { anon_huge = s.size })
    else if str_eq s.key (codes "Swap:")
    then some (record ms { swap = s.size })
    else if str_eq s.key (codes "Locked:")
    then some (record ms { locked = s.size })
    else if str_eq s.key (codes "VmFlags:")
    then (do flags ← vm_flags_text line; some (record ms { vm_flags = some flags }))
    else some ms

-- What one round of the loop does: `return false`, `break`, or the next round.
pub data Round : Type 0 where
  fail : Round
  stop : Round
  next : Scratch → PageStat → Round

abbrev next_with : Scratch → Option PageStat → Round
next_with s none = fail
next_with s (some ms) = next s ms

unfoldable pub round : Scratch → PageStat → Bytes → Round
round start ms line =
    let s = scan_field start line in
    if not (str_eq s.unit (codes "kB"))
    then fail
    else if is_smap_header_field s.key
    then stop
    else next_with s (store_field ms line s)

-- What the uninitialised locals of a round hold, given what they held at the end of the round
-- before, and what they hold in the first round: the source leaves both open.
pub record Locals : Type 0 where
  pub first : Scratch
  pub kept : Scratch → Scratch
  -- The local `buf` of `get_pagestat_snapshot`, likewise.
  pub first_word : Bytes
  pub kept_word : Bytes → Bytes

module _ (locals : Locals) where
  -- The loop, with the lines that are left in the file; `none` is `return false`.
  unfoldable pub read_fields : Scratch → PageStat → List Bytes → Option PageStat × List Bytes
  read_fields start ms [] = (some ms, [])
  read_fields start ms (line ∷ lines) = elim (round start ms line) [
    | fail ↦ (none, lines)
    | stop ↦ (some ms, lines)
    | next s ms' ↦ read_fields (locals.kept s) ms' lines
  ]

  unfoldable pub get_smap_other_fields : PageStat → List Bytes → Option PageStat × List Bytes
  get_smap_other_fields = read_fields locals.first
