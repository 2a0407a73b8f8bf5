-- ===== src/Mad/Laws.antt =====
-- The pages that the module holds.
use mm_exper.Base.{ℕ, zero, suc, ◌%◌, ◌≡◌, refl, ap, ◌∙◌, arith, true, ◌==◌, Bool-cases, inl, inr}
use mm_exper.Base.{Option, none, some, List, [], ◌∷◌, ◌++◌, if◌then◌else◌}
use mm_exper.Base.Int.{ℤ, pos, negsuc}
use mm_exper.Base.Text.{Bytes}
use mm_exper.Mad.{
  Pinned, pinned_page, pin_error, not_pinned, Kernel, Event, pin, unpin, dirty, Step, on_pinned,
  on_event, Write, to_uaddr, to_event, at_uaddr, scanned_uaddr, scanned_event, copied_event,
  gup_uaddr_write, gup_event_write, write_step, run_writes, mad_exit, module_events,
}

-- Events checked against the page that is held: a page is pinned only if none is held, and written to
-- or unpinned only if it is the one held. The result is the page held at the end, or none if an event
-- is out of place.
abbrev pub replay : List Event → Option ℕ → Option (Option ℕ)
replay [] held = some held
replay (pin p ∷ es) none = replay es (some p)
replay (pin p ∷ es) (some q) = none
replay (unpin p ∷ es) none = none
replay (unpin p ∷ es) (some q) = let rest = replay es none in if p == q then rest else none
replay (dirty p ∷ es) none = none
replay (dirty p ∷ es) (some q) = let rest = replay es (some q) in if p == q then rest else none

-- A call's events lead from the page held before it to the one held behind it.
abbrev Leads : Option ℕ → Step → Type 0
Leads page s = replay s.events page ≡ some s.curr_page

same_page : (p : ℕ) → (p == p) ≡ true
same_page p = ground arith

on_pinned-Leads : (r : Pinned) → Leads none (on_pinned r)
on_pinned-Leads (pinned_page page) = refl
on_pinned-Leads (pin_error error) = refl
on_pinned-Leads not_pinned = refl

on_event-Leads : (page : ℕ) (event : ℤ) → Leads (some page) (on_event page event)
on_event-Leads page (pos zero) = rw (same_page page) refl
on_event-Leads page (pos (suc zero)) = rw (same_page page) refl
on_event-Leads page (pos (suc (suc n))) = refl
on_event-Leads page (negsuc n) = refl

-- Events one after the other.
abbrev then_replay : List Event → Option (Option ℕ) → Option (Option ℕ)
then_replay fs none = none
then_replay fs (some held) = replay fs held

replay-append :
    (es fs : List Event) (held : Option ℕ)
    → replay (es ++ fs) held ≡ then_replay fs (replay es held)
replay-append [] fs held = refl
replay-append (pin p ∷ es) fs none = replay-append es fs (some p)
replay-append (pin p ∷ es) fs (some q) = refl
replay-append (unpin p ∷ es) fs none = refl
replay-append (unpin p ∷ es) fs (some q) = elim (Bool-cases (p == q)) [
  | inl e ↦ rw e (replay-append es fs none)
  | inr e ↦ rw e refl
]
replay-append (dirty p ∷ es) fs none = refl
replay-append (dirty p ∷ es) fs (some q) = elim (Bool-cases (p == q)) [
  | inl e ↦ rw e (replay-append es fs (some q))
  | inr e ↦ rw e refl
]

module _ (kernel : Kernel) where
  at_uaddr-Leads : (before : ℕ) (o : Option ℕ) → Leads none (at_uaddr kernel before o)
  at_uaddr-Leads before none = refl
  at_uaddr-Leads before (some uaddr) = elim (Bool-cases (uaddr % kernel.page_size == 0)) [
    | inl e ↦ rw e (on_pinned-Leads (kernel.pin_user_pages before uaddr))
    | inr e ↦ rw e refl
  ]

  scanned_uaddr-Leads : (before : ℕ) (o : Option Bytes) → Leads none (scanned_uaddr kernel before o)
  scanned_uaddr-Leads before none = refl
  scanned_uaddr-Leads before (some buf) = at_uaddr-Leads before (kernel.scan_ulong buf)

  scanned_event-Leads : (page : ℕ) (o : Option ℤ) → Leads (some page) (scanned_event kernel page o)
  scanned_event-Leads page none = refl
  scanned_event-Leads page (some event) = on_event-Leads page event

  copied_event-Leads :
      (page : ℕ) (o : Option Bytes) → Leads (some page) (copied_event kernel page o)
  copied_event-Leads page none = refl
  copied_event-Leads page (some buf) = scanned_event-Leads page (kernel.scan_int buf)

  write_step-Leads :
      (before : ℕ) (page : Option ℕ) (w : Write) → Leads page (write_step kernel before page w)
  unfolding write_step gup_uaddr_write gup_event_write
  write_step-Leads before none (to_uaddr off text) =
      scanned_uaddr-Leads before (kernel.write_to_buffer 254 off text)
  write_step-Leads before (some page) (to_uaddr off text) = refl
  write_step-Leads before none (to_event off text) = refl
  write_step-Leads before (some page) (to_event off text) =
      copied_event-Leads page (kernel.write_to_buffer 9 off text)

  run_writes-replay :
      (ws : List Write) (before : ℕ) (page : Option ℕ)
      → replay (run_writes kernel before page ws).1 page ≡ some (run_writes kernel before page ws).0
  unfolding run_writes
  run_writes-replay [] before page = refl
  run_writes-replay (w ∷ ws) before page =
      replay-append (write_step kernel before page w).events _ page
      ∙ ap (then_replay _) (write_step-Leads before page w)
      ∙ run_writes-replay ws (suc before) (write_step kernel before page w).curr_page

mad_exit-replay : (page : Option ℕ) → replay (mad_exit page) page ≡ some none
mad_exit-replay none = refl
mad_exit-replay (some page) = rw (same_page page) refl

-- Whatever is written to the two devices, and whatever the kernel answers: from its start to its exit
-- the module pins a page only while it holds none, writes to and unpins only the page that it holds,
-- and holds none in the end.
pub module_events-replay :
    (kernel : Kernel) (ws : List Write) → replay (module_events kernel ws) none ≡ some none
unfolding module_events
module_events-replay kernel ws =
    replay-append (run_writes kernel 0 none ws).1 _ none
    ∙ ap (then_replay _) (run_writes-replay kernel ws 0 none)
    ∙ mad_exit-replay (run_writes kernel 0 none ws).0
