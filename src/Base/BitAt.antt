-- ===== src/Base/BitAt.antt =====
-- Single binary digits of `&` and `~`.
use Prim.Native.Nat.{min}
use mathlib.Core.Path.{ap₂, sym}
use native.Mathlib.Nat.{pow-suc, zero-div}
use mm_exper.Base.{ℕ, zero, suc, ◌-◌, ◌*◌, ◌/◌, ◌%◌, ◌^◌, ◌<◌, ◌≡◌, refl, ap, ◌∙◌, arith}
use mm_exper.Base.{◌==◌, if◌then◌else◌, bit_and}
use mm_exper.Base.Digits.{bit_and-halves}
use mm_exper.Base.Masks.{half_div, two_pow_pos, two_pow_lt, two_pow_add}
use mm_exper.Base.Word.{bit_not}

-- Digit `k` of a number.
abbrev pub bit_at : ℕ → ℕ → ℕ
bit_at k v = v / 2 ^ k % 2

bit_at-suc : (k v : ℕ) → bit_at (suc k) v ≡ bit_at k (v / 2)
bit_at-suc k v = omega (arith, half_div (2 ^ k) v, ap (λ (t : ℕ). v / t) (pow-suc 2 k))

min_digits : (x y : ℕ) → x < 2 → y < 2 → min x y < 2
min_digits zero y p q = omega arith
min_digits (suc zero) zero p q = omega arith
min_digits (suc zero) (suc y) p q = omega arith
min_digits (suc (suc x)) y p q = absurd (omega arith)

-- The digit of `&`.
bit_at-and : (k a b : ℕ) → bit_at k (bit_and a b) ≡ min (bit_at k a) (bit_at k b)
bit_at-and zero a b =
    omega (arith, bit_and-halves a b, min_digits (a % 2) (b % 2) (omega arith) (omega arith))
bit_at-and (suc k) a b =
    bit_at-suc k (bit_and a b)
    ∙ ap (bit_at k) (halved a b)
    ∙ bit_at-and k (a / 2) (b / 2)
    ∙ sym (ap₂ min (bit_at-suc k a) (bit_at-suc k b))
  where
    halved : (a b : ℕ) → bit_and a b / 2 ≡ bit_and (a / 2) (b / 2)
    halved a b =
        omega (arith, bit_and-halves a b, min_digits (a % 2) (b % 2) (omega arith) (omega arith))

-- The digit of the complement in `k + suc m` digits.
bit_at-complement :
    (k m x : ℕ) → x < 2 ^ k * 2 ^ suc m → bit_at k (2 ^ k * 2 ^ suc m - 1 - x) ≡ 1 - bit_at k x
bit_at-complement zero m x h = omega (arith, pow-suc 2 m)
bit_at-complement (suc k) m x h =
    bit_at-suc k (2 ^ suc k * 2 ^ suc m - 1 - x)
    ∙ ap (bit_at k) (halved h)
    ∙ bit_at-complement k m (x / 2) (omega (arith, scaled))
    ∙ ap (λ (t : ℕ). 1 - t) (sym (bit_at-suc k x))
  where
    scaled : 2 ^ suc k * 2 ^ suc m ≡ 2 ^ k * 2 ^ suc m * 2
    scaled = omega (arith, ap (λ (t : ℕ). t * 2 ^ suc m) (pow-suc 2 k))

    halved :
        x < 2 ^ suc k * 2 ^ suc m
        → (2 ^ suc k * 2 ^ suc m - 1 - x) / 2 ≡ 2 ^ k * 2 ^ suc m - 1 - x / 2
    halved h = omega (arith, scaled)

-- The digit of a power.
bit_at-two_pow : (j k : ℕ) → bit_at j (2 ^ k) ≡ (if 2 ^ j == 2 ^ k then 1 else 0)
bit_at-two_pow zero zero = refl
bit_at-two_pow (suc j) zero =
    ground (arith, bit_at-suc j 1, pow-suc 2 j, two_pow_pos j, zero-div (2 ^ j))
bit_at-two_pow zero (suc k) = ground (arith, pow-suc 2 k, two_pow_pos k)
bit_at-two_pow (suc j) (suc k) = ground (
  arith,
  bit_at-suc j (2 ^ suc k),
  ap (bit_at j) (half k),
  bit_at-two_pow j k,
  pow-suc 2 j,
  pow-suc 2 k,
)
  where
    half : (k : ℕ) → 2 ^ suc k / 2 ≡ 2 ^ k
    half k = omega (arith, pow-suc 2 k)

-- `v & ~(1 << k)` has the digits of `v` but digit `k`.
pub bit_at-clear :
    (j k v : ℕ)
    → j < 64
    → k < 64
    → bit_at j (bit_and v (bit_not (2 ^ k))) ≡ (if 2 ^ j == 2 ^ k then 0 else bit_at j v)
bit_at-clear j k v hj hk = ground (
  arith,
  bit_at-and j v (bit_not (2 ^ k)),
  ap (λ (t : ℕ). bit_at j (t - 1 - 2 ^ k)) (width j hj),
  bit_at-complement j (63 - j) (2 ^ k) (fits hj hk),
  bit_at-two_pow j k,
  min-digit (bit_at j v) (omega arith),
)
  where
    width : (j : ℕ) → j < 64 → 2 ^ j * 2 ^ suc (63 - j) ≡ 2 ^ 64
    width j hj = sym (two_pow_add j (suc (63 - j))) ∙ ap (λ (t : ℕ). 2 ^ t) {y = 64} (omega arith)

    fits : j < 64 → k < 64 → 2 ^ k < 2 ^ j * 2 ^ suc (63 - j)
    fits hj hk = omega (arith, two_pow_lt k hk, width j hj, two_pow_pos k)

    min-digit : (x : ℕ) → x < 2 → (min x 1 ≡ x) × (min x 0 ≡ 0)
    min-digit zero h = (refl, refl)
    min-digit (suc zero) h = (refl, refl)
    min-digit (suc (suc x)) h = absurd (omega arith)
