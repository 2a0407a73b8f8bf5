-- ===== src/MremapBench/Aligned.antt =====
-- Where mmap_aligned maps.
use mm_exper.Base.{
  ℕ, ◌+◌, ◌*◌, ◌^◌, ◌%◌, ◌≤◌, ◌<◌, ◌≡◌, refl, ap, arith, Bool, true, false, ◌==◌, ltb,
  if◌then◌else◌, bit_and,
}
use mm_exper.Base.{none, some, [], ◌∷◌}
use mathlib.Core.Path.{ap₂}
use mm_exper.Base.Masks.{two_pow_pos, two_pow_lt}
use mm_exper.Base.Word.{bit_not}
use mm_exper.Bitwise.{align64}
use mm_exper.Bitwise.Align.{align64_lem}
use mm_exper.MremapBench.{map_anywhere, unmap, map_fixed, new_address, mmap_aligned}

module _ (orig_addr len k : ℕ) (small : k < 64) (room : orig_addr + len + 2 * 2 ^ k < 2 ^ 64) where
  new_address-align64 : new_address orig_addr (2 ^ k) ≡ align64 (orig_addr + 2 ^ k) (2 ^ k)
  unfolding new_address align64
  new_address-align64 =
      ap₂ bit_and (omega arith) (ap bit_not (omega (arith, two_pow_pos k, two_pow_lt k small)))

  new_address_bounds :
      let new_addr = new_address orig_addr (2 ^ k) in
      (orig_addr < new_addr) × (new_addr ≤ orig_addr + 2 ^ k) × (new_addr % 2 ^ k ≡ 0)
  new_address_bounds =
      let (lower, upper, aligned) = align64_lem (orig_addr + 2 ^ k) k (omega arith) small in
      rw new_address-align64 (omega (arith, upper), lower, aligned)

  -- To a power of two, k below 64, in an address space that does not wrap: mmap_aligned reserves a range,
  -- releases all of it, and maps at an aligned address behind the start of the range (so the test of the
  -- source always holds); what it maps lies within the range, and is what it returns. If the second
  -- `mmap` fails it returns a null pointer.
  pub mmap_aligned_lem :
      (fixed : Bool)
      → (new_addr : ℕ) × (orig_addr < new_addr)
        × (new_addr + len ≤ orig_addr + (len + 2 * 2 ^ k))
        × (new_addr % 2 ^ k ≡ 0)
        × (mmap_aligned (some orig_addr) fixed len (2 ^ k) ≡ record {
          ptr = if fixed then some new_addr else none;
          calls =
              map_anywhere orig_addr (len + 2 * 2 ^ k)
              ∷ unmap orig_addr (len + 2 * 2 ^ k)
              ∷ (if fixed then map_fixed new_addr len ∷ [] else []);
        })
  unfolding mmap_aligned
  mmap_aligned_lem fixed =
      let (behind, within, aligned) = new_address_bounds in
      (
        new_address orig_addr (2 ^ k),
        behind,
        omega (arith, within),
        aligned,
        rw (mmap_aligned, not_zero, later behind) refl,
      )
    where
      not_zero : (2 ^ k == 0) ≡ false
      not_zero = ground (arith, two_pow_pos k)

      later :
          orig_addr < new_address orig_addr (2 ^ k)
          → ltb orig_addr (new_address orig_addr (2 ^ k)) ≡ true
      later behind = ground arith
