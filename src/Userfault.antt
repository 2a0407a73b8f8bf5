-- ===== src/Userfault.antt =====
-- userfaultfd/shared.c: the handling of the events of a userfaultfd, and the listener of
-- userfaultfd/simple.c.
pub mod Listener
use mm_exper.Base.{ℕ, ◌-◌, ◌*◌, Bool, if◌then◌else◌, bit_and}
use mm_exper.Base.{Option, none, some, List, [], ◌∷◌, ◌++◌}
use mm_exper.Base.Word.{bit_not}
use mm_exper.Base.Output.{Output, text, dec, hex}

-- `struct uffd_msg` by its event. A `fault` has flags, an address and a thread; `other` is an event that
-- is none of the five.
pub data Msg : Type 0 where
  fault : ℕ → ℕ → ℕ → Msg
  fork : ℕ → Msg
  remap : Msg
  remove : Msg
  unmap : Msg
  other : ℕ → Msg

-- `struct uffdio_copy` of a call of UFFDIO_COPY, with the descriptor.
pub record Copy : Type 0 where
  pub uffd : ℕ
  pub src : ℕ
  pub dst : ℕ
  pub len : ℕ

-- The pages that map_page has mapped, the latest first, the copies that succeeded, and the output.
pub record State : Type 0 where
  pub mapped : List ℕ
  pub copies : List Copy
  pub out : Output

-- What the kernel answers while an event is handled: the address that `mmap` returns, if it does not fail,
-- and whether UFFDIO_COPY succeeds.
pub record Answers : Type 0 where
  pub page : Option ℕ
  pub copied : Bool

-- A call returns a value, or exits with status 1 by `fatal` or `pfatal`.
pub data Ending : Type 0 where
  returned : ℕ → Ending
  exited : Ending

-- `PAGE_ALIGN`, with a page size that an `int` can hold.
unfoldable pub page_align : ℕ → ℕ → ℕ
page_align page_size addr = bit_and addr (bit_not (page_size - 1))

abbrev pub prints : Output → State → State
prints out s = record s { out = s.out ++ out }

-- map_page, as far as the address that it returns.
abbrev pub map_page : Answers → State → Option (ℕ × State)
map_page answers s = elim (answers.page) [
  | none ↦ none
  | some ptr ↦ some (ptr, record s { mapped = ptr ∷ s.mapped })
]

-- The ioctl of handle_fault, from the page `ptr`.
abbrev pub copy_page : ℕ → ℕ → ℕ → Bool → ℕ → State → State × Ending
copy_page page_size uffd address copied ptr s =
    if copied
    then (
      record s {
        copies =
            record { uffd = uffd; src = ptr; dst = page_align page_size address; len = page_size }
            ∷ s.copies;
      },
      returned 0,
    )
    else (s, exited)

unfoldable pub handle_fault : ℕ → ℕ → ℕ → ℕ → ℕ → Answers → State → State × Ending
unfolding page_align
handle_fault page_size uffd flags address ptid answers s =
    let printed =
      prints
        (text "-- page fault uffd=["
          ∷ dec uffd
          ∷ text "] --\n"
          ∷ text "flags="
          ∷ hex flags
          ∷ text " addr="
          ∷ hex address
          ∷ text " pid="
          ∷ dec ptid
          ∷ text "\n"
          ∷ [])
        s in
    elim (map_page answers printed) [
      | none ↦ (printed, exited)
      | some (ptr, t) ↦ copy_page page_size uffd address answers.copied ptr t
    ]

abbrev pub header : Output → ℕ → Output
header name uffd = name ++ text " uffd=[" ∷ dec uffd ∷ text "] --\n" ∷ []

-- The whole handler; a null message is none.
unfoldable pub handle_event : ℕ → ℕ → Option Msg → Answers → State → State × Ending
unfolding handle_fault
handle_event page_size uffd none answers s = (s, returned 0)
handle_event page_size uffd (some (fault flags address ptid)) answers s =
    handle_fault page_size uffd flags address ptid answers s
handle_event page_size uffd (some (fork ufd)) answers s = (
  prints (header (text "-- fork" ∷ []) uffd ++ text "Child uffd=[" ∷ dec ufd ∷ text "]\n" ∷ []) s,
  returned ufd,
)
handle_event page_size uffd (some remap) answers s =
    (prints (header (text "-- remap" ∷ []) uffd) s, returned 0)
handle_event page_size uffd (some remove) answers s =
    (prints (header (text "-- remove" ∷ []) uffd) s, returned 0)
handle_event page_size uffd (some unmap) answers s =
    (prints (text "-- unmap uffd=[" ∷ hex uffd ∷ text "] --\n" ∷ []) s, returned 0)
handle_event page_size uffd (some (other event)) answers s = (s, exited)

-- The range that register_page_range registers: its start and its length. `num_pages * page_size` is taken
-- to fit an `int`.
unfoldable pub register_page_range : ℕ → ℕ → ℕ → ℕ × ℕ
unfolding page_align
register_page_range page_size ptr num_pages = (page_align page_size ptr, num_pages * page_size)
