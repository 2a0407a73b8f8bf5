-- ===== src/Mad.antt =====
-- mad/kernel/mad.c: a kernel module that pins one user page through /dev/gup_uaddr, and writes to it or
-- unpins it through /dev/gup_event. `LONGTERM` is not defined; the messages are left out.
pub mod Laws
pub mod Program
use mm_exper.Base.{ℕ, zero, suc, ◌%◌, Bool, not, ◌==◌, if◌then◌else◌}
use mm_exper.Base.{Option, none, some, List, [], ◌∷◌, ◌++◌}
use mm_exper.Base.Int.{ℤ, pos, negsuc}
use mm_exper.Base.Text.{Bytes}

-- What `pin_user_pages_unlocked` of one page returns: 1 with the page, an error value, or another
-- number, with no page.
pub data Pinned : Type 0 where
  pinned_page : ℕ → Pinned
  pin_error : ℕ → Pinned
  not_pinned : Pinned

-- The kernel: PAGE_SIZE; `simple_write_to_buffer` of a buffer's size, an offset and what was written, as
-- the bytes that it copies or none if its result is not positive; `sscanf` with "%lu" and with "%d"; and
-- the pinning of a user address after a number of earlier writes.
pub record Kernel : Type 0 where
  pub page_size : ℕ
  pub write_to_buffer : ℕ → ℕ → Bytes → Option Bytes
  pub scan_ulong : Bytes → Option ℕ
  pub scan_int : Bytes → Option ℤ
  pub pin_user_pages : ℕ → ℕ → Pinned

-- What the module does to a page.
pub data Event : Type 0 where
  pin unpin dirty : ℕ → Event

-- What a write returns: the size, -EINVAL, or the error of the pinning.
pub data Result : Type 0 where
  written : Result
  invalid : Result
  failed : ℕ → Result

-- `curr_page` behind a call, what the call returns, and what it did, in order.
pub record Step : Type 0 where
  pub curr_page : Option ℕ
  pub result : Result
  pub events : List Event

-- A call that ends before it does anything.
abbrev pub refused : Option ℕ → Result → Step
refused page result = record { curr_page = page; result = result; events = [] }

abbrev pub on_pinned : Pinned → Step
on_pinned (pinned_page page) = record {
  curr_page = some page;
  result = written;
  events = pin page ∷ [];
}
on_pinned (pin_error error) = refused none (failed error)
on_pinned not_pinned = refused none invalid

-- `unpin_curr_page` and `write_dirty` of a page.
abbrev pub unpin_curr_page : ℕ → Step
unpin_curr_page page = record { curr_page = none; result = written; events = unpin page ∷ [] }

abbrev pub write_dirty : ℕ → Step
write_dirty page = record { curr_page = some page; result = written; events = dirty page ∷ [] }

-- The `switch` on the event.
abbrev pub on_event : ℕ → ℤ → Step
on_event page (pos zero) = unpin_curr_page page
on_event page (pos (suc zero)) = write_dirty page
on_event page (pos (suc (suc n))) = refused (some page) invalid
on_event page (negsuc n) = refused (some page) invalid

-- A write to one of the two devices, at an offset.
pub data Write : Type 0 where
  to_uaddr to_event : ℕ → Bytes → Write

module _ (kernel : Kernel) where
  -- With `before` writes in front of this one; `uaddr & ~PAGE_MASK` is the remainder, PAGE_SIZE being a power of two.
  abbrev pub at_uaddr : ℕ → Option ℕ → Step
  at_uaddr before none = refused none invalid
  at_uaddr before (some uaddr) =
      if not (uaddr % kernel.page_size == 0)
      then refused none invalid
      else on_pinned (kernel.pin_user_pages before uaddr)

  abbrev pub scanned_uaddr : ℕ → Option Bytes → Step
  scanned_uaddr before none = refused none invalid
  scanned_uaddr before (some buf) = at_uaddr before (kernel.scan_ulong buf)

  unfoldable pub gup_uaddr_write : ℕ → Option ℕ → ℕ → Bytes → Step
  gup_uaddr_write before (some page) off text = refused (some page) invalid
  gup_uaddr_write before none off text = scanned_uaddr before (kernel.write_to_buffer 254 off text)

  abbrev pub scanned_event : ℕ → Option ℤ → Step
  scanned_event page none = refused (some page) invalid
  scanned_event page (some event) = on_event page event

  abbrev pub copied_event : ℕ → Option Bytes → Step
  copied_event page none = refused (some page) invalid
  copied_event page (some buf) = scanned_event page (kernel.scan_int buf)

  unfoldable pub gup_event_write : Option ℕ → ℕ → Bytes → Step
  gup_event_write none off text = refused none invalid
  gup_event_write (some page) off text = copied_event page (kernel.write_to_buffer 9 off text)

  unfoldable pub write_step : ℕ → Option ℕ → Write → Step
  unfolding gup_uaddr_write gup_event_write
  write_step before page (to_uaddr off text) = gup_uaddr_write before page off text
  write_step before page (to_event off text) = gup_event_write page off text

  -- One write after another: `curr_page`, and what was done, in order.
  unfoldable pub run_writes : ℕ → Option ℕ → List Write → Option ℕ × List Event
  unfolding write_step
  run_writes before page [] = (page, [])
  run_writes before page (w ∷ ws) =
      let s = write_step before page w in
      let (last, events) = run_writes (suc before) s.curr_page ws in (last, s.events ++ events)

-- `mad_exit` after the devices are gone.
abbrev pub mad_exit : Option ℕ → List Event
mad_exit none = []
mad_exit (some page) = (unpin_curr_page page).events

-- The module from `mad_init` to `mad_exit`.
unfoldable pub module_events : Kernel → List Write → List Event
unfolding run_writes
module_events kernel ws =
    let (page, events) = run_writes kernel 0 none ws in events ++ mad_exit page
