-- ===== src/BlockVsFile/Sizes.antt =====
-- The number of blocks and of pages of a file.
use native.Mathlib.Nat.{pow-suc, mul-div_left}
use mm_exper.Base.{
  ℕ, zero, suc, ◌+◌, ◌-◌, ◌*◌, ◌/◌, ◌%◌, ◌^◌, ◌<◌, ◌≡◌, sym, ap, ◌∙◌, arith, bit_and,
}
use mm_exper.Base.Digits.{bit_and-halves}
use mm_exper.Base.Masks.{half_div, bit_and-ones, two_pow_pos, two_pow_add, pred-mul}
use mm_exper.BlockVsFile.{bit_not32, num_blocks}

-- A mask of `m` ones above `k` zeros.
bit_and-middle : (k m a : ℕ) → bit_and a ((2 ^ m - 1) * 2 ^ k) ≡ a / 2 ^ k % 2 ^ m * 2 ^ k
bit_and-middle zero m a = ground (arith, bit_and-ones m a)
bit_and-middle (suc k) m a = ground (
  arith,
  bit_and-halves a ((2 ^ m - 1) * 2 ^ suc k),
  pow-suc 2 k,
  half_div (2 ^ k) a,
  ap (λ (t : ℕ). (2 ^ m - 1) * t) (pow-suc 2 k),
  ap (λ (t : ℕ). a / t % 2 ^ m * t) (pow-suc 2 k),
  bit_and-middle k m (a / 2),
)

high_mask32 : (k : ℕ) → k < 32 → bit_not32 (2 ^ k - 1) ≡ (2 ^ (32 - k) - 1) * 2 ^ k
high_mask32 k h = omega (
  arith,
  two_pow_pos k,
  pred-mul (2 ^ (32 - k)) (2 ^ k) (two_pow_pos (32 - k)),
  sym (two_pow_add k (32 - k)) ∙ ap (λ (t : ℕ). 2 ^ t) {y = 32} (omega arith),
)

-- With a block size of `2 ^ k`, k below 32, `num_blocks` of a file is its number of blocks, rounded up, but
-- only its lowest `32 - k` bits: the mask is computed in 32 bits, so 4 GiB count as nothing.
pub num_blocks_lem :
    (size k : ℕ) → k < 32 → num_blocks size (2 ^ k) ≡ (size + 2 ^ k - 1) / 2 ^ k % 2 ^ (32 - k)
unfolding num_blocks
num_blocks_lem size k h =
    ap (λ (t : ℕ). bit_and (size + 2 ^ k - 1) t / 2 ^ k) (high_mask32 k h)
    ∙ ap (λ (t : ℕ). t / 2 ^ k) (bit_and-middle k (32 - k) (size + 2 ^ k - 1))
    ∙ mul-div_left ((size + 2 ^ k - 1) / 2 ^ k % 2 ^ (32 - k)) (two_pow_pos k)
