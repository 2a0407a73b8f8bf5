-- ===== src/PrivatePages.antt =====
-- random/private2.c: a file of ten pages under a shared and a private mapping, which the program
-- fills, prints by the size of the file, and cuts. An access is a byte of a mapping, by its offset.
pub mod Faults
pub mod Prints
use mm_exper.Base.{ℕ, zero, suc, ◌+◌, ◌*◌, ◌/◌, Bool, true, false, not, ◌&&◌, if◌then◌else◌}
use mm_exper.Base.{ltb, List, [], ◌∷◌, ◌++◌}
use mm_exper.BlockVsFile.{round_up}

pub data Mapping : Type 0 where
  shared private : Mapping

pub data Access : Type 0 where
  write read : Mapping → ℕ → Access

-- The accesses between two changes of the size of the file.
pub record Stage : Type 0 where
  file_size : ℕ
  accesses : List Access

abbrev pub nr_pages : ℕ
nr_pages = 10

-- A loop from `i` on, with `n` to go, over offsets that lie `step` apart.
unfoldable pub every : (ℕ → Access) → ℕ → ℕ → ℕ → List Access
every f step zero i = []
every f step (suc n) i = f (i * step) ∷ every f step n (suc i)

module _ (page_size : ℕ) where
  abbrev pub size : ℕ
  size = nr_pages * page_size

  -- `int i` is compared with a size that it can hold.
  abbrev pub reset_buffer : List Access
  reset_buffer = every (write shared) 1 size 0

  abbrev pub copy_first_half : List Access
  copy_first_half = every (write private) page_size 5 0

  unfoldable pub num_pages : ℕ → ℕ
  num_pages st_size = round_up st_size page_size / page_size

  abbrev pub print_buf : Mapping → ℕ → List Access
  print_buf m st_size = every (read m) page_size (num_pages st_size) 0

  -- PRINT.
  abbrev pub print_both : ℕ → List Access
  print_both st_size = print_buf shared st_size ++ print_buf private st_size

  -- The loop that prints once a second, for some rounds of it.
  unfoldable pub print_loop : ℕ → ℕ → List Stage
  print_loop zero st_size = []
  print_loop (suc n) st_size =
      record { file_size = st_size; accesses = print_both st_size } ∷ print_loop n st_size

  -- `ftruncate`, whose result main ignores.
  abbrev pub truncated : Bool → ℕ → ℕ → ℕ
  truncated succeeds pages st_size = if succeeds then pages * page_size else st_size

  -- `pwrite` of ten pages to the start of the file.
  abbrev pub do_overwrite : ℕ → ℕ
  do_overwrite st_size = if ltb st_size size then size else st_size

  -- `main` from the file of ten pages on, by the sizes of the file after the calls of `ftruncate`.
  unfoldable pub stages : ℕ → ℕ → ℕ → List Stage
  stages larger again rounds =
      let last = do_overwrite again in
      record {
        file_size = size;
        accesses = reset_buffer ++ (print_both size ++ (copy_first_half ++ print_both size));
      }
      ∷ record { file_size = larger; accesses = print_both larger }
      ∷ record {
        file_size = again;
        accesses = print_both again ++ (reset_buffer ++ copy_first_half);
      }
      ∷ record { file_size = last; accesses = print_both last }
      ∷ print_loop rounds last

  -- The calls that `main` checks succeed; of the three calls of `ftruncate` that it does not check, any
  -- may fail.
  unfoldable pub main : Bool → Bool → Bool → ℕ → List Stage
  main up down back rounds =
      let larger = truncated up 11 size in
      let again = truncated back 10 (truncated down 5 larger) in stages larger again rounds
