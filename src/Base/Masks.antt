-- ===== src/Base/Masks.antt =====
-- Masks of low and of high bits, disjoint fields, and single bits, as arithmetic.
use Prim.Native.Nat.{differ, bit_xor-bitwise}
use mathlib.Core.WellFounded
use native.Mathlib.Nat.{
  pow-suc, one-le-pow, div-add-mod', div-div-eq-div-mul, mul_comm, mod-eq_of_lt,
}
use native.Mathlib.Nat.{pow-le-pow_right, zero-add, suc-add}
use mm_exper.Base.{ℕ, zero, suc, ◌+◌, ◌-◌, ◌*◌, ◌/◌, ◌%◌, ◌^◌, ◌≤◌, ◌<◌, ◌≡◌, refl, ap, arith}
use mathlib.Core.Path.{ap₂}
use mm_exper.Base.{bit_and, bit_or, bit_xor}
use mm_exper.Base.Digits.{bit_and-halves, bit_or-halves, bit_xor-halves}
use mm_exper.Base.Order.{lt_wf}

pub two_pow_pos : (k : ℕ) → 1 ≤ 2 ^ k
two_pow_pos k = one-le-pow k 2 (omega arith)

bit_and-zero : (a : ℕ) → bit_and a 0 ≡ 0
bit_and-zero a = WellFounded.induction lt_wf {C = λ n. bit_and n 0 ≡ 0} a (elim [
  | zero ↦ λ ih. refl
  | suc n ↦ λ ih. omega (arith, bit_and-halves (suc n) 0, ih (suc n / 2) (omega arith))
])

pub bit_or-zero : (a : ℕ) → bit_or a 0 ≡ a
bit_or-zero a = WellFounded.induction lt_wf {C = λ n. bit_or n 0 ≡ n} a (elim [
  | zero ↦ λ ih. refl
  | suc n ↦ λ ih. omega (arith, bit_or-halves (suc n) 0, ih (suc n / 2) (omega arith))
])

pub half_div : (p a : ℕ) → a / (p * 2) ≡ a / 2 / p
half_div p a = rw (mul_comm p 2, div-div-eq-div-mul a 2 p) refl

half_mod : (p a : ℕ) → a % (p * 2) ≡ a / 2 % p * 2 + a % 2
half_mod p a = omega (
  arith,
  div-add-mod' a (p * 2),
  ap (λ (t : ℕ). t * (p * 2)) (half_div p a),
  ap (λ (t : ℕ). t * 2) (div-add-mod' (a / 2) p),
)

-- A mask of `k` ones keeps the remainder.
pub bit_and-ones : (k a : ℕ) → bit_and a (2 ^ k - 1) ≡ a % 2 ^ k
bit_and-ones zero a = omega (arith, bit_and-zero a)
bit_and-ones (suc k) a = ground (
  arith,
  bit_and-halves a (2 ^ suc k - 1),
  pow-suc 2 k,
  two_pow_pos k,
  half_mod (2 ^ k) a,
  bit_and-ones k (a / 2),
)

-- A mask of `m` ones above `k` zeros clears the low bits of a number of `k + m` bits.
pub bit_and-high :
    (k m a : ℕ) → a < 2 ^ k * 2 ^ m → bit_and a ((2 ^ m - 1) * 2 ^ k) ≡ a / 2 ^ k * 2 ^ k
bit_and-high zero m a h = ground (arith, bit_and-ones m a, mod-eq_of_lt {n = a} {m = 2 ^ m})
bit_and-high (suc k) m a h = ground (
  arith,
  bit_and-halves a ((2 ^ m - 1) * 2 ^ suc k),
  pow-suc 2 k,
  half_div (2 ^ k) a,
  ap (λ (t : ℕ). (2 ^ m - 1) * t) (pow-suc 2 k),
  ap (λ (t : ℕ). a / t * t) (pow-suc 2 k),
  ap (λ (t : ℕ). t * 2 ^ m) (pow-suc 2 k),
  bit_and-high k m (a / 2),
)

-- `|` of a number whose `k` low bits are clear and a number of `k` bits is their sum.
pub bit_or-fields : (k q r : ℕ) → r < 2 ^ k → bit_or (q * 2 ^ k) r ≡ q * 2 ^ k + r
bit_or-fields zero q r h = ground (arith, bit_or-zero q)
bit_or-fields (suc k) q r h = ground (
  arith,
  bit_or-halves (q * 2 ^ suc k) r,
  ap (λ (t : ℕ). q * t) (pow-suc 2 k),
  pow-suc 2 k,
  bit_or-fields k q (r / 2),
)

differ_digits : (x y : ℕ) → x < 2 → y < 2 → differ x y < 2
differ_digits zero y p q = q
differ_digits (suc zero) zero p q = omega arith
differ_digits (suc zero) (suc y) p q = omega arith
differ_digits (suc (suc x)) y p q = absurd (omega arith)

bit_xor-half : (a b : ℕ) → bit_xor a b / 2 ≡ bit_xor (a / 2) (b / 2)
bit_xor-half a b =
    omega (arith, bit_xor-halves a b, differ_digits (a % 2) (b % 2) (omega arith) (omega arith))

-- `^` works on the high bits alone.
pub bit_xor-div : (k a b : ℕ) → bit_xor a b / 2 ^ k ≡ bit_xor (a / 2 ^ k) (b / 2 ^ k)
bit_xor-div zero a b = ground arith
bit_xor-div (suc k) a b = ground (
  arith,
  pow-suc 2 k,
  half_div (2 ^ k) (bit_xor a b),
  half_div (2 ^ k) a,
  half_div (2 ^ k) b,
  ap (λ (t : ℕ). bit_xor a b / t) (pow-suc 2 k),
  ap (λ (t : ℕ). a / t) (pow-suc 2 k),
  ap (λ (t : ℕ). b / t) (pow-suc 2 k),
  ap (λ (t : ℕ). t / 2 ^ k) (bit_xor-half a b),
  bit_xor-div k (a / 2) (b / 2),
)

differ_one : (y : ℕ) → y < 2 → differ 1 y ≡ 1 - y
differ_one zero p = refl
differ_one (suc zero) p = refl
differ_one (suc (suc y)) p = absurd (omega arith)

-- `1 ^ b` flips the lowest bit of `b`.
pub bit_xor-one : (b : ℕ) → bit_xor 1 b + b % 2 ≡ b + (1 - b % 2)
bit_xor-one b =
    omega (arith, bit_xor-halves 1 b, bit_xor-bitwise 0 (b / 2), differ_one (b % 2) (omega arith))

-- `&` with one bit is nonzero exactly when the bit is set.
pub bit_and-two_pow : (k a : ℕ) → bit_and a (2 ^ k) ≡ a / 2 ^ k % 2 * 2 ^ k
bit_and-two_pow zero a = ground (arith, bit_and-ones 1 a)
bit_and-two_pow (suc k) a = ground (
  arith,
  bit_and-halves a (2 ^ suc k),
  pow-suc 2 k,
  half_div (2 ^ k) a,
  ap (λ (t : ℕ). a / 2 / 2 ^ k % 2 * t) (pow-suc 2 k),
  bit_and-two_pow k (a / 2),
)

pub two_pow_add : (k m : ℕ) → 2 ^ (k + m) ≡ 2 ^ k * 2 ^ m
two_pow_add zero m = rw zero-add (omega arith)
two_pow_add (suc k) m = rw (suc-add k m) ground (
  arith,
  pow-suc 2 (k + m),
  pow-suc 2 k,
  ap (λ (t : ℕ). t * 2 ^ m) (pow-suc 2 k),
  two_pow_add k m,
)

-- A width below 64 leaves room above it.
pub two_pow_lt : (k : ℕ) → k < 64 → 2 ^ k * 2 ≤ 2 ^ 64
two_pow_lt k h =
    ground (arith, pow-suc 2 k, pow-le-pow_right {n = 2} (omega arith) {i = suc k} {j = 64} h)

pub pred-mul : (a b : ℕ) → 1 ≤ a → (a - 1) * b + b ≡ a * b
pred-mul a b h = let e : a ≡ suc (a - 1) = omega arith in omega (arith, ap (λ (t : ℕ). t * b) e)

-- A number and its complement share no bit.
bit_and-complement : (m q : ℕ) → q < 2 ^ m → bit_and q (2 ^ m - 1 - q) ≡ 0
bit_and-complement zero q h = ground arith
bit_and-complement (suc m) q h = omega (
  arith,
  pow-suc 2 m,
  bit_and-halves q (2 ^ suc m - 1 - q),
  halved h,
  bit_and-complement m (q / 2) (omega (arith, pow-suc 2 m)),
)
  where
    halved :
        q < 2 ^ suc m
        → bit_and (q / 2) ((2 ^ suc m - 1 - q) / 2) ≡ bit_and (q / 2) (2 ^ m - 1 - q / 2)
    halved h = ap (bit_and (q / 2)) (omega (arith, pow-suc 2 m))

-- `v & -v` is the lowest set bit of `v`, at a width of `k + 1 + m` bits.
pub bit_and-neg :
    (k m q : ℕ)
    → q < 2 ^ m
    → bit_and ((2 * q + 1) * 2 ^ k) (2 ^ suc m * 2 ^ k - (2 * q + 1) * 2 ^ k) ≡ 2 ^ k
bit_and-neg zero m q h = ground (
  arith,
  bit_and-halves (2 * q + 1) (2 ^ suc m - (2 * q + 1)),
  pow-suc 2 m,
  ap (bit_and q) (complement h),
  bit_and-complement m q,
)
  where
    complement : q < 2 ^ m → (2 ^ suc m - (2 * q + 1)) / 2 ≡ 2 ^ m - 1 - q
    complement h = omega (arith, pow-suc 2 m)
bit_and-neg (suc k) m q h = omega (
  arith,
  pow-suc 2 k,
  bit_and-halves ((2 * q + 1) * 2 ^ suc k) (2 ^ suc m * 2 ^ suc k - (2 * q + 1) * 2 ^ suc k),
  ap₂ bit_and (twice (2 * q + 1)) left,
  bit_and-neg k m q h,
  even (2 * q + 1),
)
  where
    twice : (t : ℕ) → t * 2 ^ suc k / 2 ≡ t * 2 ^ k
    twice t = omega (arith, ap (λ (u : ℕ). t * u) (pow-suc 2 k))

    even : (t : ℕ) → t * 2 ^ suc k % 2 ≡ 0
    even t = omega (arith, ap (λ (u : ℕ). t * u) (pow-suc 2 k))

    left :
        (2 ^ suc m * 2 ^ suc k - (2 * q + 1) * 2 ^ suc k) / 2
        ≡ 2 ^ suc m * 2 ^ k - (2 * q + 1) * 2 ^ k
    left = omega (
      arith,
      ap (λ (u : ℕ). 2 ^ suc m * u) (pow-suc 2 k),
      ap (λ (u : ℕ). (2 * q + 1) * u) (pow-suc 2 k),
    )
