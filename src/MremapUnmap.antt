-- ===== src/MremapUnmap.antt =====
-- random/mremap_unmap.c: half of a mapping is moved away and back again, with and without writes to both
-- halves. The calls are those of random/procmap.c and have its offsets; a call that fails ends the
-- program, and the calls are those of a run in which none does.
pub mod Layout
use mm_exper.Base.{ℕ, zero, suc, ◌+◌, ◌/◌, ◌%◌, Bool, true, false, ◌==◌, if◌then◌else◌}
use mm_exper.Base.{List, [], ◌∷◌, ◌++◌, map}
use mm_exper.Procmap.Protect.{
  Call, reserve, munmap, mmap_fixed, write, mremap, protect_calls, cleanup_calls,
}

abbrev write_if : Bool → ℕ → List Call
write_if b off = if b then write off ∷ [] else []

-- `do_move` up to the listing of the mappings.
unfoldable pub move_calls : Bool → Bool → Bool → List Call
move_calls touch_a_first touch_a_afterwards touch_b =
    reserve 0 100 ∷ munmap 0 100 ∷ mmap_fixed 0 10 ∷ write_if touch_a_first 0
    ++ mremap 5 15 5 true ∷ write_if touch_a_afterwards 0
    ++ write_if touch_b 15
    ++ mremap 15 5 5 true ∷ []

unfoldable pub do_move : Bool → Bool → Bool → List Call
do_move touch_a_first touch_a_afterwards touch_b =
    move_calls touch_a_first touch_a_afterwards touch_b ++ munmap 0 5 ∷ munmap 5 5 ∷ []

-- `(i >> n) & 1`, for n of 0, 1 and 2.
abbrev pub flag : ℕ → ℕ → Bool
flag i p = i / p % 2 == 1

-- The arguments of `do_move` in the loop of `main`, with `left` rounds left.
pub record Flags : Type 0 where
  pub touch_a_first : Bool
  pub touch_a_afterwards : Bool
  pub touch_b : Bool

unfoldable pub all_flags : ℕ → ℕ → List Flags
all_flags zero i = []
all_flags (suc left) i =
    record { touch_a_first = flag i 1; touch_a_afterwards = flag i 2; touch_b = flag i 4 }
    ∷ all_flags left (suc i)

abbrev pub move_flags : Flags → List Call
move_flags f = do_move f.touch_a_first f.touch_a_afterwards f.touch_b

-- The calls of each round. Behind them, its `do_mremap_mprotect` makes the calls of the one in
-- random/procmap.c, with relocation.
unfoldable pub main_moves : List (List Call)
main_moves = map move_flags (all_flags 8 0)

unfoldable pub do_mremap_mprotect : List Call
do_mremap_mprotect = protect_calls true ++ cleanup_calls
