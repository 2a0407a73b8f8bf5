-- ===== src/MergeCases.antt =====
-- random/merge_cases.c: calls that make the kernel merge mappings in each way that it tells apart, each
-- announced in the kernel's log. Offsets are in pages from the start of one of two reserved areas.
pub mod Documented
use Prim.Native.String.{String}
use mm_exper.Base.{ℕ, zero, suc, ◌+◌, ◌-◌, Bool, true, false, if◌then◌else◌, get_or}
use mm_exper.Base.{List, [], ◌∷◌, ◌++◌}

-- The protection of a mapping, by whether it can be read and written.
pub data Prot : Type 0 where
  no_access ro rw : Prot

-- A page: reserved by `reserve`, not mapped, or mapped.
pub data Page : Type 0 where
  reserved hole : Page
  mapped : Prot → Page

pub data Call : Type 0 where
  -- `do_map` and `do_mprotect` of pages of the first area, `unmap`.
  map : ℕ → ℕ → Prot → Call
  mprotect : ℕ → ℕ → Prot → Call
  unmap : ℕ → ℕ → Call
  -- `remap` of pages of the first area to an offset of the second, which keeps the source; `reunmap`.
  remap : ℕ → ℕ → ℕ → Call
  reunmap : ℕ → ℕ → Call
  -- `remap_expand` of pages to a larger number of pages.
  remap_expand : ℕ → ℕ → ℕ → Call
  kmsg : String → Call

abbrev mmap_cases : List Call
mmap_cases =
    map 0 1 rw
    ∷ map 2 1 rw
    ∷ kmsg "mmap: case 1"
    ∷ map 1 1 rw
    ∷ unmap 1 1
    ∷ unmap 2 1
    ∷ kmsg "mmap: case 2"
    ∷ map 1 1 rw
    ∷ unmap 1 1
    ∷ unmap 0 1
    ∷ map 2 1 rw
    ∷ kmsg "mmap: case 3"
    ∷ map 1 1 rw
    ∷ unmap 1 1
    ∷ unmap 2 1
    ∷ []

abbrev mremap_cases : List Call
mremap_cases =
    map 0 1 rw
    ∷ map 2 1 rw
    ∷ map 4 1 rw
    ∷ remap 0 1 0
    ∷ remap 2 1 2
    ∷ kmsg "mremap: case 1"
    ∷ remap 4 1 1
    ∷ reunmap 1 1
    ∷ reunmap 2 1
    ∷ kmsg "mremap: case 2"
    ∷ remap 2 1 1
    ∷ reunmap 0 1
    ∷ reunmap 1 1
    ∷ remap 2 1 2
    ∷ kmsg "mremap: case 3"
    ∷ remap 4 1 1
    ∷ reunmap 1 1
    ∷ reunmap 2 1
    ∷ unmap 0 1
    ∷ unmap 2 1
    ∷ unmap 4 1
    ∷ []

abbrev mremap_expand_cases : List Call
mremap_expand_cases =
    map 0 1 rw
    ∷ map 2 1 rw
    ∷ kmsg "mremap [expand]: case 1"
    ∷ remap_expand 0 1 2
    ∷ unmap 0 3
    ∷ map 0 1 rw
    ∷ kmsg "mremap [expand]: case 2"
    ∷ remap_expand 0 1 2
    ∷ []

abbrev mprotect_cases : List Call
mprotect_cases =
    map 0 2 rw
    ∷ map 2 1 ro
    ∷ kmsg "mprotect: case 4"
    ∷ mprotect 1 1 ro
    ∷ kmsg "mprotect: case 5"
    ∷ mprotect 1 1 rw
    ∷ unmap 0 3
    ∷ map 0 1 rw
    ∷ map 1 1 ro
    ∷ map 2 1 rw
    ∷ kmsg "mprotect: case 6"
    ∷ mprotect 1 1 rw
    ∷ mprotect 1 1 no_access
    ∷ unmap 2 1
    ∷ kmsg "mprotect: case 7"
    ∷ mprotect 1 1 rw
    ∷ mprotect 0 1 ro
    ∷ kmsg "mprotect: case 8"
    ∷ mprotect 0 1 rw
    ∷ []

-- `main` behind `init`.
unfoldable pub main_calls : List Call
main_calls = mmap_cases ++ (mremap_cases ++ (mremap_expand_cases ++ mprotect_cases))

-- A run of calls, of which the `i`th succeeds or ends the program: those that were made.
unfoldable pub run : (ℕ → Bool) → ℕ → List Call → List Call
run succeeds i [] = []
run succeeds i (c ∷ cs) = let rest = run succeeds (suc i) cs in if succeeds i then c ∷ rest else []
