-- ===== src/Tests/SmapsTests.antt =====
-- pagestat: three mappings of a process in the kernel's format, one page each.
use Prim.Native.String.{String}
use mm_exper.Base.{ℕ, ◌+◌, ◌^◌, ◌≡◌, refl, arith, true, Option, none, some, List, [], ◌∷◌, ◌++◌}
use mm_exper.Base.{if◌then◌else◌}
use mm_exper.Base.Text.{Bytes, codes, str_eq, scan_word, scan_ulong}
use mm_exper.Base.Proc.{Proc, WordFile}
use mm_exper.PageStat.Data.{PageStat, cleared}
use mm_exper.PageStat.Entry.{has_pfn, get_pfn, check_bit}
use mm_exper.PageStat.Hex.{hex_digit, parse_hex, split_at_dash, extract_address_range}
use mm_exper.PageStat.Hex.Spec.{hex_text}
use mm_exper.PageStat.Hex.Laws.{extract_address_range-hex_text}
use mm_exper.PageStat.Smaps.{
  Locals, is_smap_header_field, scan_header, scan_field, store_field, vm_flags_text, round,
  get_smap_header_fields, read_fields, get_smap_other_fields,
}
use mm_exper.PageStat.Smaps.Loop.{IsHeaderLine, IsFieldLine}
use mm_exper.PageStat.PageTable.{
  read_u64s, read_u64, count_virt_pages, tweak_counts, frame_word, get_pagetable_fields,
}
use mm_exper.PageStat.PageTable.Spec.{IsFilled}
use mm_exper.PageStat.PageTable.Laws.{get_pagetable_fields-IsFilled}
use mm_exper.PageStat.Snapshot.{
  open_smaps, word_or, find_header, on_search, fill, finish, get_pagestat_snapshot,
  pagestat_snapshot_all,
}
use mm_exper.PageStat.Snapshot.Laws.{Block, IsBlock, TakenAs, block_lines}
use mm_exper.PageStat.Snapshot.All.{
  Mapping, AreMappings, mapping_lines, pagestat_snapshot_all-every_other,
}

-- A header line from its range.
abbrev header_line : String → Bytes
header_line range = codes range ++ codes " rw-p 00001000 08:02 173521 /usr/bin/cat\n"

abbrev size_line : Bytes
size_line = codes "Size:                  4 kB\n"

abbrev rss_line : Bytes
rss_line = codes "Rss:                   0 kB\n"

abbrev flags_line : Bytes
flags_line = codes "VmFlags: rd wr mr \n"

abbrev block_at : String → Block
block_at range = record {
  header = header_line range;
  field = size_line;
  fields = rss_line ∷ flags_line ∷ [];
}

abbrev first : Block
first = block_at "00400000-00401000"

abbrev second : Block
second = block_at "00500000-00501000"

abbrev third : Block
third = block_at "00600000-00601000"

-- Present, frame 0x1234.
abbrev present_entry : ℕ
present_entry = 2 ^ 63 + 0x1234

abbrev words_of : ℕ → WordFile
words_of w = record { seek = λ offset. true; read = λ offset count. w ∷ [] }

abbrev word_files : Bytes → Option WordFile
word_files path =
    if str_eq path (codes "/proc/7/pagemap")
    then some (words_of present_entry)
    else if str_eq path (codes "/proc/kpagecount")
    then some (words_of 1)
    else if str_eq path (codes "/proc/kpageflags")
    then some (words_of 0x68)
    else none

abbrev pub proc : Proc
proc = record {
  page_size = 4096;
  words = word_files;
  lines = λ path. some (block_lines first ++ (block_lines second ++ (block_lines third ++ [])));
}

abbrev pub pid : Bytes
pid = codes "7"

-- The locals keep what they held.
abbrev pub locals : Locals
locals = record {
  first = record { key = []; size = 0; unit = [] };
  kept = λ s. s;
  first_word = [];
  kept_word = λ w. w;
}

-- What a mapping at `from` is taken as.
abbrev pub taken_at : ℕ → PageStat
taken_at from = record (cleared from (from + 0x1000)) {
  perms = codes "rw-p";
  offset = 0x1000;
  name = some (codes "/usr/bin/cat");
  vm_size = 4;
  rss = 4;
  rss_counted = true;
  vm_flags = some (codes "rd wr mr");
  pagemaps = present_entry ∷ [];
  kpagecounts = 1 ∷ [];
  kpageflags = 0x68 ∷ [];
}

all_taken :
    TakenAs proc locals pid first (taken_at 0x400000)
    × TakenAs proc locals pid second (taken_at 0x500000)
    × TakenAs proc locals pid third (taken_at 0x600000)
unfolding get_pagestat_snapshot find_header word_or on_search fill finish scan_word scan_ulong
    is_smap_header_field extract_address_range split_at_dash parse_hex hex_digit
    get_smap_header_fields scan_header get_smap_other_fields read_fields round scan_field
    store_field vm_flags_text str_eq get_pagetable_fields read_u64s read_u64 count_virt_pages
    tweak_counts frame_word get_pfn has_pfn check_bit
all_taken = (refl, refl, refl)

-- What `%s` leaves of a block's lines.
abbrev behind_header : Bytes
behind_header = codes " rw-p 00001000 08:02 173521 /usr/bin/cat\n"

header_lines : IsHeaderLine first.header × IsHeaderLine second.header × IsHeaderLine third.header
unfolding scan_word scan_ulong is_smap_header_field
header_lines = (
  record {
    word = codes "00400000-00401000";
    behind = behind_header;
    scanned = refl;
    no_number = refl;
    no_colon = refl;
  },
  record {
    word = codes "00500000-00501000";
    behind = behind_header;
    scanned = refl;
    no_number = refl;
    no_colon = refl;
  },
  record {
    word = codes "00600000-00601000";
    behind = behind_header;
    scanned = refl;
    no_number = refl;
    no_colon = refl;
  },
)

field_lines : IsFieldLine size_line × IsFieldLine rss_line × IsFieldLine flags_line
unfolding scan_word is_smap_header_field
field_lines = (
  record {
    word = codes "Size:";
    behind = codes "                  4 kB\n";
    scanned = refl;
    colon = refl;
  },
  record {
    word = codes "Rss:";
    behind = codes "                   0 kB\n";
    scanned = refl;
    colon = refl;
  },
  record { word = codes "VmFlags:"; behind = codes " rd wr mr \n"; scanned = refl; colon = refl },
)

is_block : (range : String) → IsHeaderLine (header_line range) → IsBlock (block_at range)
is_block range h = record {
  header_line = h;
  field_lines = (field_lines.0, (field_lines.1, (field_lines.2, tt)));
}

abbrev mappings : List Mapping
mappings =
    (first, taken_at 0x400000) ∷ (second, taken_at 0x500000) ∷ (third, taken_at 0x600000) ∷ []

mappings-AreMappings : AreMappings proc locals pid mappings
mappings-AreMappings = (
  is_block "00400000-00401000" header_lines.0,
  all_taken.0,
  (
    is_block "00500000-00501000" header_lines.1,
    all_taken.1,
    (is_block "00600000-00601000" header_lines.2, all_taken.2, tt),
  ),
)

opened : open_smaps proc pid ≡ some (mapping_lines mappings)
unfolding open_smaps
opened = refl

pub taken :
    pagestat_snapshot_all proc locals pid ≡ some (taken_at 0x400000 ∷ taken_at 0x600000 ∷ [])
taken =
    pagestat_snapshot_all-every_other proc locals pid (λ s. refl) mappings mappings-AreMappings
      opened (omega arith)

-- The second mapping is not among the snapshots.
pagestat_snapshot_all-every_other_example :
    pagestat_snapshot_all proc locals pid ≡ some (taken_at 0x400000 ∷ taken_at 0x600000 ∷ [])
pagestat_snapshot_all-every_other_example =
    pagestat_snapshot_all-every_other proc locals pid (λ s. refl) mappings mappings-AreMappings
      opened (omega arith)

extract_address_range-hex_text_example :
    extract_address_range (hex_text 8 0x400000 ++ b'-' ∷ hex_text 8 0x401000)
    ≡ some (0x400000, 0x401000)
extract_address_range-hex_text_example =
    extract_address_range-hex_text 8 8 0x400000 0x401000 (omega arith) (omega arith) (omega arith)
      (omega arith)

-- The fields of the first mapping before its page table is read.
abbrev before_table : PageStat
before_table = record (cleared 0x400000 0x401000) { vm_size = 4 }

table_read :
    get_pagetable_fields proc pid before_table
    ≡ some (record before_table {
      rss = 4;
      rss_counted = true;
      pagemaps = present_entry ∷ [];
      kpagecounts = 1 ∷ [];
      kpageflags = 0x68 ∷ [];
    })
unfolding get_pagetable_fields read_u64s read_u64 count_virt_pages tweak_counts frame_word get_pfn
    has_pfn check_bit str_eq
table_read = refl

get_pagetable_fields-IsFilled_example : IsFilled proc pid before_table (record before_table {
  rss = 4;
  rss_counted = true;
  pagemaps = present_entry ∷ [];
  kpagecounts = 1 ∷ [];
  kpageflags = 0x68 ∷ [];
})
get_pagetable_fields-IsFilled_example =
    get_pagetable_fields-IsFilled proc pid before_table table_read
