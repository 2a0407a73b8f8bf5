-- ===== src/Tests/UserfaultTests.antt =====
-- userfaultfd/: a listener that reads a fault, a fork and another fault.
use mm_exper.Base.{ℕ, ◌≡◌, refl, arith, true, some, List, [], ◌∷◌}
use mm_exper.Userfault.{Msg, fault, fork, State, Answers, handle_event, register_page_range}
use mm_exper.Userfault.Listener.{Listens, listening, handled, IsServed, Listens-IsServed}

abbrev answered : ℕ → Answers
answered ptr = record { page = some ptr; copied = true }

abbrev first : State
first =
    (handle_event 4096 3 (some (fault 0 0x7001 7)) (answered 0x10000)
      (record { mapped = []; copies = []; out = [] })).0

abbrev second : State
second = (handle_event 4096 3 (some (fork 4)) (answered 0) first).0

abbrev third : State
third = (handle_event 4096 3 (some (fault 1 0x8fff 7)) (answered 0x20000) second).0

abbrev msgs : List Msg
msgs = fault 1 0x8fff 7 ∷ fork 4 ∷ fault 0 0x7001 7 ∷ []

reached : Listens 3 12 msgs third
unfolding handle_event
reached =
    handled
      (handled (handled listening (fault 0 0x7001 7) (answered 0x10000) 0 refl) (fork 4)
        (answered 0) 4 refl)
      (fault 1 0x8fff 7) (answered 0x20000) 0 refl

Listens-IsServed_example : IsServed 12 msgs third
Listens-IsServed_example = Listens-IsServed (omega arith, (omega arith, tt)) (omega arith) reached

copied :
    third.copies
    ≡ record { uffd = 3; src = 0x20000; dst = 0x8000; len = 4096 }
      ∷ record { uffd = 3; src = 0x10000; dst = 0x7000; len = 4096 }
      ∷ []
unfolding handle_event
copied = refl

registered : register_page_range 4096 0x7123 3 ≡ (0x7000, 12288)
unfolding register_page_range
registered = refl
