-- ===== src/BlockVsFile.antt =====
-- block_exper/block_vs_file.c: the numbers of blocks and pages, the blocks of the file, and the letters that
-- the program writes to a mapping of the file and to one of the device.
pub mod Sizes
pub mod Letters
use mm_exper.Base.{
  ℕ, zero, suc, ◌+◌, ◌-◌, ◌*◌, ◌/◌, ◌^◌, Bool, ◌||◌, ◌==◌, ltb, if◌then◌else◌, bit_and,
}
use mm_exper.Base.{Option, none, some, List, [], ◌∷◌}
use mm_exper.Base.Word.{bit_not}

-- `ROUND_DOWN` and `ROUND_UP` of 64-bit values to a 64-bit multiple.
unfoldable pub round_down : ℕ → ℕ → ℕ
round_down val multiple = bit_and val (bit_not (multiple - 1))

-- `~` of a 32-bit value, which is taken to 64 bits afterwards.
abbrev pub bit_not32 : ℕ → ℕ
bit_not32 v = 2 ^ 32 - 1 - v

unfoldable pub round_up : ℕ → ℕ → ℕ
round_up val multiple = bit_and (val + multiple - 1) (bit_not (multiple - 1))

-- `ROUND_UP` to a multiple that is an `unsigned int`.
unfoldable pub round_up32 : ℕ → ℕ → ℕ
round_up32 val multiple = bit_and (val + multiple - 1) (bit_not32 (multiple - 1))

-- `num_blocks`, with `blksize` an `unsigned int`, and `size_in_pages`, with `page_size` a `long`.
unfoldable pub num_blocks : ℕ → ℕ → ℕ
unfolding round_up32
num_blocks size blksize = round_up32 size blksize / blksize

unfoldable pub size_in_pages : ℕ → ℕ → ℕ
unfolding round_up
size_in_pages size page_size = round_up size page_size / page_size

-- get_block_nums from block `i` on, with `n` to go: `ioctl (fd, FIBMAP, ...)` gives the block for a number,
-- or fails, which ends the program.
unfoldable pub get_block_nums : (ℕ → Option ℕ) → ℕ → ℕ → ℕ → Option (List ℕ)
get_block_nums fibmap sectors_per_block zero i = some []
get_block_nums fibmap sectors_per_block (suc n) i =
    let rest = get_block_nums fibmap sectors_per_block n (i + 1) in
    elim (fibmap (i * sectors_per_block)) [
      | none ↦ none
      | some block ↦ elim rest [ none ↦ none | some blocks ↦ some (block ∷ blocks) ]
    ]

unfoldable pub next_char : ℕ → ℕ
next_char chr = if ltb chr b'a' || ltb b'z' chr then b'a' else if chr == b'z' then b'a' else chr + 1

-- `do { chr = next_char (chr); } while (chr == other);` in at most `fuel` rounds.
unfoldable pub next_other : ℕ → ℕ → ℕ → Option ℕ
next_other zero other chr = none
next_other (suc fuel) other chr =
    let rest = next_other fuel other (next_char chr) in
    if next_char chr == other then rest else some (next_char chr)

-- A write of a letter to the first byte of a mapping.
pub data Write : Type 0 where
  to_file : ℕ → Write
  to_dev : ℕ → Write

abbrev pub then_write {ℓ} : {A : Type ℓ} → Option ℕ → (ℕ → Option A) → Option A
then_write none next = none
then_write (some chr) next = next chr

-- The writes of `main`, from the byte that the file's mapping has at first, and the one that the device's
-- has behind the first write; at most `fuel` rounds of each loop.
unfoldable pub letter_writes : ℕ → ℕ → ℕ → Option (List Write)
unfolding next_char next_other
letter_writes fuel file dev =
    let f1 = next_char file in
    then_write (next_other fuel f1 dev) (λ d1. then_write (next_other fuel f1 d1) (λ d2.
      then_write (next_other fuel d2 f1) (λ f2.
        then_write (next_other fuel f2 d2)
          (λ d3. some (to_file f1 ∷ to_dev d1 ∷ to_dev d2 ∷ to_file f2 ∷ to_dev d3 ∷ [])))))
