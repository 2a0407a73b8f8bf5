-- ===== src/Procmap/Moves.antt =====
-- random/procmap.c: the calls that set a case up, as a list in their order. Offsets are in pages from
-- the start of the reserved range. A call that fails ends the program: the list is that of a run in
-- which none does.
pub mod Layout
use mm_exper.Base.{ℕ, Bool, not, ◌&&◌, if◌then◌else◌, List, [], ◌∷◌, ◌++◌}
use mm_exper.Procmap.Case.{Config, state, same_state, is_none, is_same, is_diff, is_primary_pop}

pub data Call : Type 0 where
  -- `mmap (NULL, n, PROT_NONE)`, the reservation.
  reserve : ℕ → Call
  -- `mmap` of `n` readable and writable pages at offset 0, fixed.
  map_fixed : ℕ → Call
  -- `mremap_move` from an offset to another of `n` pages, with or without MREMAP_MUST_RELOCATE_ANON.
  mremap_move : ℕ → ℕ → ℕ → Bool → Call
  -- `ptr[offset] = 'x'`, and `munmap` of one page.
  write munmap : ℕ → Call

abbrev when : Bool → List Call → List Call
when b calls = if b then calls else []

abbrev concat : List (List Call) → List Call
concat [] = []
concat (c ∷ cs) = c ++ concat cs

-- Behind the early return.
unfoldable pub init_apart : Config → List Call
init_apart conf = concat (
    (mremap_move 1 4 2 conf.relocate_anon ∷ [])
    ∷ when (is_same conf 1) (write 4 ∷ [])
    ∷ (mremap_move 4 1 1 conf.relocate_anon ∷ [])
    ∷ when (is_same conf 0) (write 0 ∷ [])
    ∷ (mremap_move 1 3 1 conf.relocate_anon ∷ [])
    ∷ when (is_primary_pop conf) (write 3 ∷ [])
    ∷ when (is_diff conf 0 && is_diff conf 1 && not (same_state (state conf 0) (state conf 1)))
        (write 0 ∷ write 5 ∷ [])
    ∷ (mremap_move 5 1 1 conf.relocate_anon ∷ [])
    ∷ when (is_diff conf 0 && is_diff conf 1) (write 0 ∷ [])
    ∷ (mremap_move 3 9 1 conf.relocate_anon ∷ mremap_move 1 2 1 conf.relocate_anon ∷ [])
    ∷ when (is_none conf 0) (munmap 0 ∷ [])
    ∷ when (is_none conf 1) (munmap 2 ∷ [])
    ∷ [])

unfoldable pub init_mappings : Config → List Call
unfolding init_apart
init_mappings conf =
    map_fixed 3
    ∷ (if is_same conf 0 && is_same conf 1 && is_primary_pop conf
        then write 0 ∷ mremap_move 1 9 1 conf.relocate_anon ∷ []
        else init_apart conf)

-- `__try_mremap` up to its query.
unfoldable pub try_calls : Config → List Call
unfolding init_mappings
try_calls conf = reserve 10 ∷ (init_mappings conf ++ mremap_move 9 1 1 conf.relocate_anon ∷ [])
