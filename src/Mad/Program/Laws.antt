-- ===== src/Mad/Program/Laws.antt =====
-- What a run of mad/mad.c leaves pinned, what it does with the page, and a run in which the module refuses the page.
use mathlib.Core.List.{append_assoc, append-nil}
use mm_exper.Base.{ℕ, ◌+◌, ◌%◌, ◌≡◌, refl, arith, true, false}
use mm_exper.Base.{Option, none, some, List, [], ◌∷◌, ◌++◌}
use mm_exper.Base.Int.{pos}
use mm_exper.Base.Text.{Bytes, codes}
use mm_exper.Base.Numerals.{dec_numeral}
use mm_exper.Mad.{
  Kernel, Pinned, pin_error, not_pinned, on_pinned, at_uaddr, scanned_uaddr, pinned_page, pin,
  unpin, dirty, Write, to_event, write_step, gup_uaddr_write, gup_event_write,
}
use mm_exper.Mad.Program.{
  Request, pin_request, dirty_request, unpin_request, Os, Act, by_module, write, Machine,
  is_positive, deliver, send, gup_page, gup_unpin, gup_write_dirty, after_write, with_mapping, main,
  mapped_at,
}

-- `fprintf` and `fclose`: where `fprintf` does not return a positive number, nothing is written.
abbrev pub IsAllOrNothing : Os → Request → Type 0
IsAllOrNothing os r =
    (text : Bytes) → is_positive (os.fprintf r text) ≡ false → os.flushed r text ≡ none

-- The module can be told to unpin: the device opens, the text arrives, and the kernel reads 0 from it.
pub record Unpins (kernel : Kernel) (os : Os) : Type 0 where
  pub opens : os.fopen unpin_request ≡ true
  pub arrives : os.flushed unpin_request (codes "0\n") ≡ some (codes "0\n")
  pub copied : kernel.write_to_buffer 9 0 (codes "0\n") ≡ some (codes "0\n")
  pub scanned : kernel.scan_int (codes "0\n") ≡ some (pos 0)

module _ (kernel : Kernel) (os : Os) where
  module _ (can : Unpins kernel os) where
    deliver-page :
        (o : Option ℕ) (n : ℕ) → (write_step kernel n o (to_event 0 (codes "0\n"))).curr_page ≡ none
    unfolding write_step gup_event_write
    deliver-page none n = refl
    deliver-page (some p) n = rw (can.copied, can.scanned) refl

    gup_unpin-page : (m : Machine) → (gup_unpin kernel os m).1.page ≡ none
    unfolding gup_unpin send
    gup_unpin-page m = rw (can.opens, can.arrives) (deliver-page m.page m.writes)

    after_write-page : (m : Machine) → (after_write kernel os m).1.page ≡ none
    unfolding after_write
    after_write-page m =
        ground (arith, gup_unpin-page m, gup_unpin-page (gup_write_dirty kernel os m).1)

    gup_page-page :
        IsAllOrNothing os pin_request
        → (addr : ℕ) (m : Machine) → m.page ≡ none
        → (gup_page kernel os addr m).0 ≡ false
        → (gup_page kernel os addr m).1.page ≡ none
    unfolding gup_page send
    gup_page-page whole addr m held failed = ground (arith, whole (dec_numeral addr ++ codes "\n"))

    with_mapping-page :
        IsAllOrNothing os pin_request
        → (addr : ℕ) (m : Machine) → m.page ≡ none
        → (with_mapping kernel os addr m).1.page ≡ none
    unfolding with_mapping
    with_mapping-page whole addr m held = ground (
      arith,
      gup_page-page whole addr m held,
      after_write-page (record (gup_page kernel os addr m).1 {
        acts = (gup_page kernel os addr m).1.acts ++ write ∷ [];
      }),
    )

    mapped_at-page :
        IsAllOrNothing os pin_request
        → (o : Option ℕ) (m : Machine) → m.page ≡ none
        → (mapped_at kernel os o m).1.page ≡ none
    mapped_at-page whole none m held = held
    mapped_at-page whole (some addr) m held = ground (arith, with_mapping-page whole addr m held)

    -- Whatever fails in a run of the program, and whatever the kernel answers: if the module holds no page
    -- at first, it holds none in the end, on each path, provided that the module can be told to unpin and
    -- that an address whose `fprintf` fails is not written.
    pub main-page :
        IsAllOrNothing os pin_request
        → (m : Machine) → m.page ≡ none
        → (main kernel os m).1.page ≡ none
    unfolding main
    main-page whole m held = ground (arith, mapped_at-page whole os.mmap m held)

-- Each call outside the module succeeds, the file being mapped at an address.
pub record IsWorking (os : Os) (addr : ℕ) : Type 0 where
  pub opens_file : os.opens_file ≡ true
  pub mapped : os.mmap ≡ some addr
  pub synced : (n : ℕ) → os.msync n ≡ true
  pub opens : (r : Request) → os.fopen r ≡ true
  pub printed : (r : Request) (text : Bytes) → is_positive (os.fprintf r text) ≡ true
  pub arrives : (r : Request) (text : Bytes) → os.flushed r text ≡ some text

-- The kernel reads from a short text the number that was printed, and pins a page for an address in its
-- `n`th write.
pub record Pins (kernel : Kernel) (addr n p : ℕ) : Type 0 where
  pub copied_addr :
      kernel.write_to_buffer 254 0 (dec_numeral addr ++ codes "\n")
      ≡ some (dec_numeral addr ++ codes "\n")
  pub scanned_addr : kernel.scan_ulong (dec_numeral addr ++ codes "\n") ≡ some addr
  pub copied : kernel.write_to_buffer 9 0 (codes "0\n") ≡ some (codes "0\n")
  pub copied_one : kernel.write_to_buffer 9 0 (codes "1\n") ≡ some (codes "1\n")
  pub scanned : kernel.scan_int (codes "0\n") ≡ some (pos 0)
  pub scanned_one : kernel.scan_int (codes "1\n") ≡ some (pos 1)
  pub aligned : addr % kernel.page_size ≡ 0
  pub pinned : kernel.pin_user_pages n addr ≡ pinned_page p

-- Each step of such a run.
module _ (kernel : Kernel) (os : Os) {addr n p : ℕ} (w : IsWorking os addr)
    (k : Pins kernel addr n p) where
  send_lem :
      (r : Request) (device : Bytes → Write) (text : Bytes) (m : Machine)
      → send kernel os r device text m ≡ (true, (deliver kernel os device (some text) m).1)
  unfolding send
  send_lem r device text m = rw (w.opens r, w.printed r text, w.arrives r text) refl

  gup_page_lem :
      (acts : List Act)
      → gup_page kernel os addr (record { page = none; writes = n; acts = acts })
        ≡ (true, record { page = some p; writes = n + 1; acts = acts ++ by_module (pin p) ∷ [] })
  unfolding gup_page write_step gup_uaddr_write
  gup_page_lem acts = rw (send_lem, k.copied_addr, k.scanned_addr, k.aligned, k.pinned) refl

  gup_write_dirty_lem :
      (writes : ℕ) (acts : List Act)
      → gup_write_dirty kernel os (record { page = some p; writes = writes; acts = acts }) ≡ (
        true,
        record { page = some p; writes = writes + 1; acts = acts ++ by_module (dirty p) ∷ [] },
      )
  unfolding gup_write_dirty write_step gup_event_write
  gup_write_dirty_lem writes acts = rw (send_lem, k.copied_one, k.scanned_one) refl

  gup_unpin_lem :
      (writes : ℕ) (acts : List Act)
      → gup_unpin kernel os (record { page = some p; writes = writes; acts = acts }) ≡ (
        true,
        record { page = none; writes = writes + 1; acts = acts ++ by_module (unpin p) ∷ [] },
      )
  unfolding gup_unpin write_step gup_event_write
  gup_unpin_lem writes acts = rw (send_lem, k.copied, k.scanned) refl

  after_write_lem :
      (writes : ℕ) (acts : List Act)
      → after_write kernel os (record { page = some p; writes = writes; acts = acts }) ≡ (
        true,
        record {
          page = none;
          writes = writes + 1 + 1;
          acts = (acts ++ by_module (dirty p) ∷ []) ++ by_module (unpin p) ∷ [];
        },
      )
  unfolding after_write
  after_write_lem writes acts = rw (w.synced 1, gup_write_dirty_lem, gup_unpin_lem) refl

-- Where each call succeeds and the kernel pins a page for the address of the mapping, the run succeeds: the
-- module, which holds no page at first, pins that page, the program writes to its mapping, and the
-- module dirties and unpins the page; nothing else is done.
pub main-acts :
    (kernel : Kernel) (os : Os) (addr n p : ℕ) (acts : List Act)
    → IsWorking os addr
    → Pins kernel addr n p
    → main kernel os (record { page = none; writes = n; acts = acts }) ≡ (
      true,
      record {
        page = none;
        writes = n + 1 + 1 + 1;
        acts = acts ++ by_module (pin p) ∷ write ∷ by_module (dirty p) ∷ by_module (unpin p) ∷ [];
      },
    )
unfolding main with_mapping
main-acts kernel os addr n p acts w k = simp (
  w.opens_file,
  w.mapped,
  w.synced 0,
  gup_page_lem kernel os w k acts,
  after_write_lem kernel os w k,
  append_assoc,
)

-- Where the module holds no page behind the write of an address, it has done nothing.
on_pinned-refused : (p : Pinned) → (on_pinned p).curr_page ≡ none → (on_pinned p).events ≡ []
on_pinned-refused (pinned_page page) e = absurd cc
on_pinned-refused (pin_error error) e = refl
on_pinned-refused not_pinned e = refl

at_uaddr-refused :
    (kernel : Kernel) (n : ℕ) (o : Option ℕ)
    → (at_uaddr kernel n o).curr_page ≡ none
    → (at_uaddr kernel n o).events ≡ []
at_uaddr-refused kernel n none e = refl
at_uaddr-refused kernel n (some uaddr) e =
    ground (arith, on_pinned-refused (kernel.pin_user_pages n uaddr))

gup_uaddr_write-refused :
    (kernel : Kernel) (n : ℕ) (text : Bytes)
    → (gup_uaddr_write kernel n none 0 text).curr_page ≡ none
    → (gup_uaddr_write kernel n none 0 text).events ≡ []
unfolding gup_uaddr_write
gup_uaddr_write-refused kernel n text = scanned (kernel.write_to_buffer 254 0 text)
  where
    scanned :
        (o : Option Bytes)
        → (scanned_uaddr kernel n o).curr_page ≡ none
        → (scanned_uaddr kernel n o).events ≡ []
    scanned none e = refl
    scanned (some buf) e = at_uaddr-refused kernel n (kernel.scan_ulong buf) e

-- Where each other call succeeds, up to `fclose`, which may return anything, and the module, which holds no page
-- at first, holds none behind the write of the address either, whatever it returned: the run succeeds
-- as if a page had been pinned. The program writes to its mapping, and its requests to dirty and to
-- unpin the page reach the module too; but nothing is done to a page.
pub main-refused :
    (kernel : Kernel) (os : Os) (addr n : ℕ) (acts : List Act)
    → IsWorking os addr
    → (gup_uaddr_write kernel n none 0 (dec_numeral addr ++ codes "\n")).curr_page ≡ none
    → main kernel os (record { page = none; writes = n; acts = acts })
      ≡ (true, record { page = none; writes = n + 1 + 1 + 1; acts = acts ++ write ∷ [] })
unfolding main with_mapping after_write gup_page gup_write_dirty gup_unpin send write_step
    gup_event_write
main-refused kernel os addr n acts w e =
    let done = gup_uaddr_write-refused kernel n (dec_numeral addr ++ codes "\n") e in
    simp (
      w.opens_file,
      w.mapped,
      w.synced 0,
      w.synced 1,
      w.opens pin_request,
      w.opens dirty_request,
      w.opens unpin_request,
      w.printed pin_request (dec_numeral addr ++ codes "\n"),
      w.printed dirty_request (codes "1\n"),
      w.printed unpin_request (codes "0\n"),
      w.arrives pin_request (dec_numeral addr ++ codes "\n"),
      w.arrives dirty_request (codes "1\n"),
      w.arrives unpin_request (codes "0\n"),
      e,
      done,
      append-nil,
    )
