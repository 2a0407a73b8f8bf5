-- ===== src/Tests/MadTests.antt =====
-- mad/kernel/mad.c: two pages pinned one after the other. mad/mad.c: runs of the program.
use mm_exper.Base.Numerals.{dec_numeral}
use mm_exper.Base.{Bool, true, false, ◌==◌, if◌then◌else◌, arith}
use mm_exper.Base.{ℕ, ◌/◌, ◌≡◌, refl, Option, none, some, List, [], ◌∷◌, ◌++◌, take}
use mm_exper.Base.Int.{ℤ, pos, negsuc}
use mm_exper.Base.Text.{Bytes, codes, scan_ulong}
use mm_exper.Mad.{
  Kernel, Result, invalid, failed, pin_error, pinned_page, pin, unpin, dirty, Write, to_uaddr,
  to_event, module_events, run_writes, write_step, gup_uaddr_write, gup_event_write,
}
use mm_exper.Mad.Laws.{replay, module_events-replay}
use mm_exper.Mad.Program.{Os, Machine, by_module, write, pin_request, main}
use mm_exper.Mad.Program.Laws.{
  IsAllOrNothing, Unpins, IsWorking, Pins, main-page, main-acts, main-refused,
}

abbrev number_of : Option (ℕ × Bytes) → Option ℕ
number_of none = none
number_of (some (n, rest)) = some n

abbrev int_of : Option (ℕ × Bytes) → Option ℤ
int_of none = none
int_of (some (n, rest)) = some (pos n)

-- A kernel in which each address is its page's number times the page size.
abbrev kernel : Kernel
kernel = record {
  page_size = 4096;
  write_to_buffer = λ size off text. some (take size text);
  scan_ulong = λ s. number_of (scan_ulong s);
  scan_int = λ s. int_of (scan_ulong s);
  pin_user_pages = λ before uaddr. pinned_page (uaddr / 4096);
}

abbrev writes : List Write
writes =
    to_event 0 (codes "1")
    ∷ to_uaddr 0 (codes "4096")
    ∷ to_uaddr 0 (codes "8192")
    ∷ to_event 0 (codes "1")
    ∷ to_event 0 (codes "0")
    ∷ to_uaddr 0 (codes "8193")
    ∷ to_uaddr 0 (codes "8192")
    ∷ []

-- What is out of place or not aligned is refused, and the exit unpins the second page.
done : module_events kernel writes ≡ pin 1 ∷ dirty 1 ∷ unpin 1 ∷ pin 2 ∷ unpin 2 ∷ []
unfolding module_events run_writes write_step gup_uaddr_write gup_event_write scan_ulong
done = refl

module_events-replay_example : replay (module_events kernel writes) none ≡ some none
module_events-replay_example = module_events-replay kernel writes

-- `fclose` fails where the module refused the write.
abbrev close_result : Option Result → ℤ
close_result (some invalid) = negsuc 0
close_result (some (failed error)) = negsuc 0
close_result _ = pos 0

-- The second `msync` fails or not, and all else works.
abbrev system : Bool → Os
system synced = record {
  opens_file = true;
  mmap = some 8192;
  msync = λ n. if n == 0 then true else synced;
  fopen = λ r. true;
  fprintf = λ r text. pos 1;
  flushed = λ r text. some text;
  fclose = λ r answer. close_result answer;
}

abbrev idle : Machine
idle = record { page = none; writes = 0; acts = [] }

-- A kernel that pins nothing.
abbrev refusing : Kernel
refusing = record kernel { pin_user_pages = λ before uaddr. pin_error 14 }

all_or_nothing : IsAllOrNothing (system false) pin_request
all_or_nothing text e = absurd (cc)

kernel-Unpins : Unpins kernel (system false)
unfolding scan_ulong
kernel-Unpins = record { opens = refl; arrives = refl; copied = refl; scanned = refl }

main-page_example : (main kernel (system false) idle).1.page ≡ none
main-page_example = main-page kernel (system false) kernel-Unpins all_or_nothing idle refl

all_synced : (n : ℕ) → (system true).msync n ≡ true
all_synced n = ground arith

working : IsWorking (system true) 8192
working = record {
  opens_file = refl;
  mapped = refl;
  synced = all_synced;
  opens = λ r. refl;
  printed = λ r text. refl;
  arrives = λ r text. refl;
}

kernel-Pins : Pins kernel 8192 0 2
unfolding scan_ulong dec_numeral
kernel-Pins = record {
  copied_addr = refl;
  scanned_addr = refl;
  copied = refl;
  copied_one = refl;
  scanned = refl;
  scanned_one = refl;
  aligned = refl;
  pinned = refl;
}

main-acts_example : main kernel (system true) idle ≡ (
  true,
  record {
    page = none;
    writes = 3;
    acts = by_module (pin 2) ∷ write ∷ by_module (dirty 2) ∷ by_module (unpin 2) ∷ [];
  },
)
main-acts_example = main-acts kernel (system true) 8192 0 2 [] working kernel-Pins

no_page : (gup_uaddr_write refusing 0 none 0 (dec_numeral 8192 ++ codes "\n")).curr_page ≡ none
unfolding gup_uaddr_write scan_ulong dec_numeral
no_page = refl

main-refused_example :
    main refusing (system true) idle ≡ (true, record { page = none; writes = 3; acts = write ∷ [] })
main-refused_example = main-refused refusing (system true) 8192 0 [] working no_page
