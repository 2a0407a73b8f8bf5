-- ===== src/Mad/Program.antt =====
-- mad/mad.c: the program that pins a page of a file through the module, writes to the page and has the
-- module dirty and unpin it. What it says of its progress and of errors is left out.
pub mod Laws
use mm_exper.Base.{ℕ, zero, suc, ◌+◌, Bool, true, false, if◌then◌else◌}
use mm_exper.Base.{Option, none, some, List, [], ◌∷◌, ◌++◌}
use mm_exper.Base.Int.{ℤ, pos, negsuc}
use mm_exper.Base.Text.{Bytes, codes}
use mm_exper.Base.Numerals.{dec_numeral}
use mm_exper.Mad.{Kernel, Event, Result, Write, to_uaddr, to_event, write_step}

-- The files that are opened on the devices, each at most once in a run: by gup_page, gup_write_dirty and
-- gup_unpin.
pub data Request : Type 0 where
  pin_request dirty_request unpin_request : Request

-- The rest of the system: whether the file opens; the address that `mmap` returns, or none
-- if it fails; whether the first and the second `msync` succeed; whether `fopen` of a device does; what
-- `fprintf` returns, which fills the buffer of the stream; what `fclose` writes to the device of that, or
-- none if nothing is written; and what `fclose` returns, by what the module returned from the write, if
-- there was one.
pub record Os : Type 0 where
  pub opens_file : Bool
  pub mmap : Option ℕ
  pub msync : ℕ → Bool
  pub fopen : Request → Bool
  pub fprintf : Request → Bytes → ℤ
  pub flushed : Request → Bytes → Option Bytes
  pub fclose : Request → Option Result → ℤ

-- What was done: by the module to a page, and by the program itself, which writes to its mapping.
pub data Act : Type 0 where
  by_module : Event → Act
  write : Act

-- The module's page, the number of writes that reached it, and what was done, in order.
pub record Machine : Type 0 where
  pub page : Option ℕ
  pub writes : ℕ
  pub acts : List Act

abbrev module_acts : List Event → List Act
module_acts [] = []
module_acts (e ∷ es) = by_module e ∷ module_acts es

-- `val` was neither negative nor zero.
abbrev is_positive : ℤ → Bool
is_positive (pos zero) = false
is_positive (pos (suc n)) = true
is_positive (negsuc n) = false

module _ (kernel : Kernel) (os : Os) where
  -- A write to the device: what the module returns, if there is one, and the machine behind it.
  abbrev pub deliver : (Bytes → Write) → Option Bytes → Machine → Option Result × Machine
  deliver device none m = (none, m)
  deliver device (some text) m =
      let s = write_step kernel m.writes m.page (device text) in
      let behind : Machine = record {
        page = s.curr_page;
        writes = m.writes + 1;
        acts = m.acts ++ module_acts s.events;
      } in
      (some s.result, behind)

  -- `fopen`, `fprintf` and, on each path, `fclose`, of which the result is not used.
  unfoldable pub send : Request → (Bytes → Write) → Bytes → Machine → Bool × Machine
  send r device text m =
      let val = os.fprintf r text in
      let (answer, m') = deliver device (os.flushed r text) m in
      let closed = os.fclose r answer in if os.fopen r then (is_positive val, m') else (false, m)

  unfoldable pub gup_page : ℕ → Machine → Bool × Machine
  gup_page addr m = send pin_request (to_uaddr 0) (dec_numeral addr ++ codes "\n") m

  unfoldable pub gup_unpin : Machine → Bool × Machine
  gup_unpin m = send unpin_request (to_event 0) (codes "0\n") m

  unfoldable pub gup_write_dirty : Machine → Bool × Machine
  gup_write_dirty m = send dirty_request (to_event 0) (codes "1\n") m

  -- An error that unpins the page first: EXIT_FAILURE whatever `gup_unpin` returns.
  abbrev pub fail_unpinned : Machine → Bool × Machine
  fail_unpinned m = (false, (gup_unpin m).1)

  -- From the second sync on.
  unfoldable pub after_write : Machine → Bool × Machine
  after_write m =
      let (written, m') = gup_write_dirty m in
      if os.msync 1 then (if written then gup_unpin m' else fail_unpinned m') else fail_unpinned m

  -- From gup_page on.
  unfoldable pub with_mapping : ℕ → Machine → Bool × Machine
  with_mapping addr m =
      let (pinned, m') = gup_page addr m in
      if pinned then after_write (record m' { acts = m'.acts ++ write ∷ [] }) else (false, m')

  abbrev pub mapped_at : Option ℕ → Machine → Bool × Machine
  mapped_at none m = (false, m)
  mapped_at (some addr) m = if os.msync 0 then with_mapping addr m else (false, m)

-- Whether it returns EXIT_SUCCESS, and the machine behind it.
unfoldable pub main : Kernel → Os → Machine → Bool × Machine
main kernel os m = if os.opens_file then mapped_at kernel os os.mmap m else (false, m)
