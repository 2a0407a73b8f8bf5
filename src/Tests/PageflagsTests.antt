-- ===== src/Tests/PageflagsTests.antt =====
-- read-pageflags: one page of a process with two mappings.
use mm_exper.Base.{ℕ, zero, suc, ◌+◌, ◌^◌, ◌≡◌, refl, arith, true, Option, none, some}
use mm_exper.Base.{List, [], ◌∷◌, take, map}
use mm_exper.Base.Int.{pos}
use mm_exper.Base.Text.{codes, scan_word, scan_ulong}
use mm_exper.Base.Proc.{Proc, WordFile}
use mm_exper.ReadPageflags.Words.{extract_pfn, read_pagemap, read_kpageflags, read_mapcount}
use mm_exper.ReadPageflags.Hex.{parse_hex, parse_hex_loop, add_digit}
use mm_exper.ReadPageflags.Same.{IsFread}
use mm_exper.ReadPageflags.Maps.{extract_mapdata, scan_maps_line, read_mapdata}
use mm_exper.ReadPageflags.Maps.Find.{
  MapsLine, IsMapsLine, line_text, first_with, described, read_mapdata-first,
}
use mm_exper.ReadPageflags.Print.{
  Devices, absent, reply, fields_if, print_flags_virt, print_flags_virt_precalc, get_refcount,
  print_page_buffers,
}
use mm_exper.Base.Run.{returned}
use mm_exper.ReadPageflags.Print.Laws.{
  LetsGo, describable, print_flags_virt-all_read, print_flags_virt-describable,
}
use mm_exper.Tests.PrintTests.{linux_flags}

-- Present, frame 0x1234.
abbrev present_entry : ℕ
present_entry = 2 ^ 63 + 0x1234

abbrev words_of : ℕ → WordFile
words_of w = record { seek = λ offset. true; read = λ offset count. take count (w ∷ []) }

abbrev lower : MapsLine
lower = record {
  from = 0x400000;
  to = 0x402000;
  from_digits = 8;
  to_digits = 8;
  rest = codes "r-xp 00001000 08:02 173521 /usr/bin/cat\n";
}

abbrev upper : MapsLine
upper = record lower { from = 0x600000; to = 0x601000; rest = codes "rw-p 00000000 00:00 0\n" }

abbrev maps : List MapsLine
maps = lower ∷ upper ∷ []

abbrev proc : Proc
proc = record {
  page_size = 4096;
  words = λ path. some (words_of present_entry);
  lines = λ path. some (map line_text maps);
}

abbrev AreFread : Option WordFile → Type 0
AreFread none = Unit
AreFread (some fp) = IsFread fp

one_word : IsFread (words_of present_entry)
one_word offset zero = omega arith
one_word offset (suc zero) = omega arith
one_word offset (suc (suc count)) = omega arith

lower_line : IsMapsLine lower
lower_line = record {
  from_fits = omega arith;
  to_fits = omega arith;
  from_valid = omega arith;
  to_valid = omega arith;
}

upper_line : IsMapsLine upper
upper_line = record {
  from_fits = omega arith;
  to_fits = omega arith;
  from_valid = omega arith;
  to_valid = omega arith;
}

read_mapdata-first_example :
    read_mapdata proc (λ w. w) [] 0x600800 ≡ described (first_with 0x600800 maps)
read_mapdata-first_example =
    read_mapdata-first proc (λ w. w) [] 0x600800 maps (lower_line, (upper_line, tt)) refl

-- The first mapping with its fields.
lower_described : described (first_with 0x401fff maps) ≡ (
  true,
  some (record {
    perms = codes "r-xp";
    offset = 0x1000;
    inode = 173521;
    name = codes "/usr/bin/cat";
  }),
)
unfolding extract_mapdata scan_maps_line scan_word scan_ulong parse_hex parse_hex_loop add_digit
lower_described = refl

-- A device that counts three references, and none for the buffers.
abbrev devices : Devices
devices = record { refcount = λ pfn. reply (pos 3); pagebuffers = λ pfn. absent }

print_flags_virt-all_read_example :
    print_flags_virt proc linux_flags devices (λ w. w) [] 0x600800 (codes "page")
    ≡ print_flags_virt_precalc proc linux_flags devices 0x600800
        (read_pagemap proc 0x600800)
        (extract_pfn (read_pagemap proc 0x600800))
        (read_kpageflags proc (extract_pfn (read_pagemap proc 0x600800)))
        (read_mapcount proc (extract_pfn (read_pagemap proc 0x600800)))
        (fields_if proc linux_flags devices (read_mapdata proc (λ w. w) [] 0x600800))
        (codes "page")
print_flags_virt-all_read_example =
    print_flags_virt-all_read proc linux_flags devices (λ w. w) [] 0x600800 (codes "page")

lets_go : LetsGo devices (extract_pfn (read_pagemap proc 0x600800))
unfolding get_refcount print_page_buffers
lets_go = ((pos 3, refl), refl)

print_flags_virt-describable_example :
    (print_flags_virt proc linux_flags devices (λ w. w) [] 0x600800 (codes "page")).end
    ≡ returned (describable proc (read_pagemap proc 0x600800))
print_flags_virt-describable_example =
    print_flags_virt-describable proc linux_flags devices (λ w. w) [] 0x600800 (codes "page")
      lets_go
