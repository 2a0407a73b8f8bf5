-- ===== src/MremapBench.antt =====
-- random/mremap_bench.c: aligned mappings and the times of moves. A single run is in Relocate; here its
-- time is a parameter, and a run that fails ends the program.
pub mod Aligned
pub mod Relocate
pub mod Runs
use mm_exper.Base.{
  ℕ, zero, suc, ◌+◌, ◌-◌, ◌*◌, ◌^◌, Bool, true, false, ◌&&◌, ◌==◌, ltb, leb, if◌then◌else◌, bit_and,
}
use mm_exper.Base.{Option, none, some, List, [], ◌∷◌}
use mm_exper.Base.Word.{bit_not, add64, u64}

-- A call, with the address and the length: `mmap` that chooses the address, `munmap`, and `mmap` with
-- MAP_FIXED.
pub data Call : Type 0 where
  map_anywhere : ℕ → ℕ → Call
  unmap : ℕ → ℕ → Call
  map_fixed : ℕ → ℕ → Call

-- What mmap_aligned returns, or none for a null pointer, and the calls that succeeded.
pub record Mapped : Type 0 where
  pub ptr : Option ℕ
  pub calls : List Call

-- `(orig_addr + align) & ~(align - 1)`.
unfoldable pub new_address : ℕ → ℕ → ℕ
new_address orig_addr align = bit_and (add64 orig_addr align) (bit_not (align - 1))

-- From the address that the first `mmap` returns, or none if it fails, and whether the second succeeds.
unfoldable pub mmap_aligned : Option ℕ → Bool → ℕ → ℕ → Mapped
unfolding new_address
mmap_aligned none fixed len align = record { ptr = none; calls = [] }
mmap_aligned (some orig_addr) fixed len align =
    let new_len = len + 2 * align in
    let new_addr = new_address orig_addr align in
    if align == 0
    then record { ptr = some orig_addr; calls = map_anywhere orig_addr new_len ∷ [] }
    else if ltb orig_addr new_addr
    then record {
      ptr = if fixed then some new_addr else none;
      calls =
          map_anywhere orig_addr new_len
          ∷ unmap orig_addr new_len
          ∷ (if fixed then map_fixed new_addr len ∷ [] else []);
    }
    else record {
      ptr = some orig_addr;
      calls = map_anywhere orig_addr new_len ∷ unmap orig_addr new_len ∷ [];
    }

abbrev pub page : ℕ
page = 2 ^ 12

abbrev pub megabyte : ℕ
megabyte = 2 ^ 20

-- The alignment that remap_normal and remap_relocate ask for.
abbrev pub pmd_align : Bool → ℕ → ℕ
pmd_align align len = if align && leb (2 ^ 21) len then 2 ^ 21 else 0

-- The sums and the maxima of the times of the runs without and with relocation.
pub record Totals : Type 0 where
  pub normal : ℕ
  pub remap : ℕ
  pub max_normal : ℕ
  pub max_remap : ℕ

abbrev pub max_of : ℕ → ℕ → ℕ
max_of x y = if ltb y x then x else y

-- A round of time_move: whether it is one of the second loop, and the length. No two rounds are the same.
pub record Round : Type 0 where
  pub second : Bool
  pub len : ℕ

abbrev pub page_round : ℕ → Round
page_round count = record { second = false; len = count * page }

abbrev pub megabyte_round : ℕ → Round
megabyte_round count = record { second = true; len = count * megabyte }

-- `elapsed` is the time of a move, by its round, whether it relocates, the length that is populated and
-- the alignment; `pop_len` is the part of a length that is populated, which the source
-- computes in floating point.
module _ (elapsed : Round → Bool → ℕ → ℕ → ℕ) (pop_len : ℕ → ℕ) (align : Bool) where
  abbrev pub time_of : Bool → Round → ℕ
  time_of relocate r = elapsed r relocate (pop_len r.len) (pmd_align align r.len)

  unfoldable pub add_run : Round → Totals → Totals
  add_run r t = record {
    normal = add64 t.normal (time_of false r);
    remap = add64 t.remap (time_of true r);
    max_normal = max_of t.max_normal (time_of false r);
    max_remap = max_of t.max_remap (time_of true r);
  }

  -- The two loops, in at most `fuel` rounds; the result has the count behind the loop.
  unfoldable pub page_loop : ℕ → ℕ → Totals → Option (ℕ × Totals)
  page_loop zero count t = none
  page_loop (suc fuel) count t =
      let rest = page_loop fuel (count + 1) (add_run (page_round count) t) in
      if ltb (count * page) (2 * megabyte) then rest else some (count, t)

  unfoldable pub megabyte_loop : ℕ → ℕ → Totals → Option (ℕ × Totals)
  megabyte_loop zero count t = none
  megabyte_loop (suc fuel) count t =
      let rest = megabyte_loop fuel (count + 100) (add_run (megabyte_round count) t) in
      if leb count 1000 then rest else some (count, t)

  abbrev then_megabytes : ℕ → Option (ℕ × Totals) → Option (ℕ × Totals)
  then_megabytes fuel none = none
  then_megabytes fuel (some (count, t)) = megabyte_loop fuel 1 t

  -- The count that the averages are divided by, and the totals.
  unfoldable pub time_move : ℕ → Option (ℕ × Totals)
  unfolding page_loop megabyte_loop
  time_move fuel =
      then_megabytes fuel
        (page_loop fuel 1 (record { normal = 0; remap = 0; max_normal = 0; max_remap = 0 }))
