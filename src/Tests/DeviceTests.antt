-- ===== src/Tests/DeviceTests.antt =====
-- kernel/ and random/shared.c: the devices with a kernel that does what is documented, and their clients.
use mm_exper.Base.{ℕ, ◌≡◌, ◌^◌, ◌<◌, ◌≤◌, refl, ap, arith, true, ltb, ◌==◌, if◌then◌else◌}
use mm_exper.Base.{Option, none, some, [], ◌∷◌, ◌++◌, take, drop, length, take-all}
use mm_exper.Base.Int.{pos}
use mm_exper.Base.Run.{print}
use mm_exper.Base.BitAt.{bit_at}
use mm_exper.Base.Output.{text, dec, str}
use mm_exper.Base.Text.{Bytes, codes, scan_ulong}
use mm_exper.Base.Numerals.{hex_numeral}
use mm_exper.Base.Numerals.Dec.{scan_ulong-dec_numeral}
use mm_exper.Device.{Calls}
use mm_exper.Device.Documented.{Documented}
use mm_exper.Device.Vma.{Vma, reset, vmainfo_write}
use mm_exper.Device.Exper.{
  Page, BufferBits, letters, read_buffer_head, refcount_of, pagebuffers_buf,
}
use mm_exper.Device.Exper.Buffers.{shown, read_buffer_head-shown}
use mm_exper.Device.Exper.Client.{Exper, exper_devices}
use mm_exper.Device.Exper.Laws.{get_refcount-stale}
use mm_exper.Device.Exper.Both.{buffers_shown, exper_devices-page}
use mm_exper.ReadPageflags.Print.{get_refcount, print_page_buffers}
use mm_exper.VmaFlags.{flags_map, print_loop, print_vma_flags}
use mm_exper.VmaFlags.Loop.{set_pairs, has_flag, print_loop-set_pairs}
use mm_exper.VmaFlags.Lookup.{Client, lookup_vma_flags}
use mm_exper.VmaFlags.Lookup.Laws.{lookup_vma_flags-found, lookup_vma_flags-missing}

abbrev number_of : Option (ℕ × Bytes) → Option ℕ
number_of none = none
number_of (some (n, rest)) = some n

abbrev calls : Calls
calls = record {
  write_to_buffer = λ size off input. some (take size input);
  read_from_buffer = λ size off s. take size (drop off s);
  scan_ulong = λ s. number_of (scan_ulong s);
}

calls-Documented : Documented calls
calls-Documented = record {
  copies = λ input some_byte fits. ap some (take-all 254 input fits);
  reads = λ size s fits. take-all size s fits;
  scans = λ n fits. ap number_of (scan_ulong-dec_numeral n b'\n' [] fits refl);
}

-- One VMA, of four pages.
abbrev stack : Vma
stack = record { vm_start = 0x7000; vm_end = 0xb000; vm_flags = 0x100173 }

abbrev find_vma : ℕ → Option Vma
find_vma addr = if ltb addr stack.vm_end then some stack else none

abbrev client : Client
client = record { opened = true; printed = true; block = 4096; flags = 7 }

lookup_vma_flags-found_example :
    lookup_vma_flags client calls find_vma reset 0x8123 ≡ print (print_vma_flags 0x100173) tt
lookup_vma_flags-found_example =
    lookup_vma_flags-found client calls calls-Documented find_vma reset 0x8123 (omega arith) refl
      (omega arith) (omega arith) refl refl (omega arith)

lookup_vma_flags-missing_example :
    lookup_vma_flags client calls find_vma reset 0x6fff ≡ print (print_vma_flags 7) tt
lookup_vma_flags-missing_example =
    lookup_vma_flags-missing client calls calls-Documented find_vma reset 0x6fff (omega arith)
      (omega arith) refl refl (omega arith)

info :
    (vmainfo_write calls find_vma reset 0 (codes "28672\n")).buffer.output_buf
    ≡ codes "start=7000, end=b000, flags=100173"
unfolding vmainfo_write scan_ulong hex_numeral
info = refl

-- A flag in no pair, and the one that is called VM_PKEY_SHIFT.
unknown :
    print_vma_flags 0x821
    ≡ text "VM_READ"
      ∷ text " "
      ∷ text "VM_MAYWRITE"
      ∷ text " "
      ∷ text "(invalid: "
      ∷ dec 0x800
      ∷ text " remain)"
      ∷ text "\n"
      ∷ []
unfolding print_vma_flags
unknown = refl

print_loop-set_pairs_example :
    ((print_loop flags_map 0x821).0 ≡ set_pairs 0x821 [] flags_map)
    × ((j : ℕ)
        → j < 64
        → bit_at j (print_loop flags_map 0x821).1
          ≡ (if has_flag flags_map (2 ^ j) then 0 else bit_at j 0x821))
print_loop-set_pairs_example = print_loop-set_pairs 0x821

-- Two pages, the second held three times and with buffers.
abbrev linux_bits : BufferBits
linux_bits = record {
  uptodate = 0;
  dirty = 1;
  lock = 2;
  req = 3;
  mapped = 4;
  new = 5;
  async_read = 6;
  async_write = 7;
  delay = 8;
  boundary = 9;
  write_eio = 10;
  unwritten = 11;
  quiet = 12;
  meta = 13;
  prio = 14;
  defer_completion = 15;
}

abbrev held : Page
held = record { refcount = pos 3; b_state = some 0x31 }

abbrev pages : ℕ → Option Page
pages pfn = if pfn == 1 then some held else none

abbrev module_state : Exper
module_state = record { refcount_buf = refcount_of held; pagebuffers_buf = pagebuffers_buf }

exper_devices-page_example :
    (get_refcount (exper_devices linux_bits calls pages 4096 module_state) 1 ≡ print [] (pos 3))
    × (print_page_buffers (exper_devices linux_bits calls pages 4096 module_state) 1
        ≡ print
            (text "page_buffers=" ∷ str (buffers_shown linux_bits (some 0x31)) ∷ text " " ∷ [])
            tt)
exper_devices-page_example =
    exper_devices-page calls-Documented linux_bits 4096 (omega arith) pages module_state 1
      (omega arith) held (omega arith) refl

get_refcount-stale_example :
    get_refcount (exper_devices linux_bits calls pages 4096 module_state) 2 ≡ print [] (pos 3)
get_refcount-stale_example =
    get_refcount-stale calls-Documented 4096 (omega arith) linux_bits pages module_state 2
      (omega arith) held (omega arith) refl refl

buffers : read_buffer_head linux_bits 0x31 ≡ codes "[UMN]"
unfolding read_buffer_head
buffers = refl

read_buffer_head-shown_example :
    (read_buffer_head linux_bits 0x31 ≡ codes "[" ++ (shown 0x31 (letters linux_bits) ++ codes "]"))
    × (length (read_buffer_head linux_bits 0x31) ≤ 24)
read_buffer_head-shown_example = read_buffer_head-shown linux_bits 0x31
