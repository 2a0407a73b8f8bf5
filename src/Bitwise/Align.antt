-- ===== src/Bitwise/Align.antt =====
-- Alignment to a power of two, down and up, as arithmetic on all 64-bit values.
use native.Mathlib.Nat.{mod-lt, mod-eq_of_lt, mul-mod_left, div-mul-le_self, lt-div-mul-add}
use native.Mathlib.Nat.{
  zero-mod, div-eq_of_lt, le_trans, add-mul-mod_self_left, div-lt_iff_lt-mul, div-add-mod,
  div-eq_of_lt-le,
}
use Prim.Native.Nat.{suc-le-suc}
use native.Mathlib.Decide.{dec_lt}
use mm_exper.Base.{ℕ, zero, suc, ◌+◌, ◌-◌, ◌*◌, ◌/◌, ◌%◌, ◌^◌, ◌≤◌, ◌<◌, ◌≡◌, sym, ap, ◌∙◌, arith}
use mm_exper.Base.{◌==◌, Bool-cases, false, ==_iff, inl, inr, if◌then◌else◌}
use mm_exper.Base.Masks.{two_pow_pos, two_pow_add, two_pow_lt, pred-mul, bit_and-ones, bit_and-high}
use mm_exper.Base.Word.{neg64, sub64, bit_not, u64}
use mm_exper.Bitwise.{align64, align64_up, align64_up_impl_1, mask_high_bits}

all_bits : (k : ℕ) → k < 64 → k + (64 - k) ≡ 64
all_bits k hk = omega arith

room : (k : ℕ) → k < 64 → 2 ^ k * 2 ^ (64 - k) ≡ 2 ^ 64
room k hk = sym (two_pow_add k (64 - k)) ∙ ap (λ (t : ℕ). 2 ^ t) (all_bits k hk)

-- `~((1 << k) - 1)` and `-(1 << k)` are the mask of the high bits.
high_mask : (k : ℕ) → k < 64 → bit_not (sub64 (2 ^ k) 1) ≡ (2 ^ (64 - k) - 1) * 2 ^ k
high_mask k hk = omega (
  arith,
  two_pow_lt k hk,
  two_pow_pos k,
  pred-mul (2 ^ (64 - k)) (2 ^ k) (two_pow_pos (64 - k)),
  room k hk,
)

neg_mask : (k : ℕ) → k < 64 → neg64 (u64 (1 * 2 ^ k)) ≡ (2 ^ (64 - k) - 1) * 2 ^ k
neg_mask k hk = omega (
  arith,
  two_pow_lt k hk,
  two_pow_pos k,
  pred-mul (2 ^ (64 - k)) (2 ^ k) (two_pow_pos (64 - k)),
  room k hk,
)

low_ones : (k : ℕ) → k < 64 → sub64 (2 ^ k) 1 ≡ 2 ^ k - 1
low_ones k hk = omega (arith, two_pow_lt k hk, two_pow_pos k)

-- Rounding down as the hardware mask does it.
pub align64-eq : (v k : ℕ) → v < 2 ^ 64 → k < 64 → align64 v (2 ^ k) ≡ v / 2 ^ k * 2 ^ k
unfolding align64
align64-eq v k hv hk = rw (high_mask k hk) (bit_and-high k (64 - k) v (rw (room k hk) hv))

-- For a 64-bit value and a bit below 64, `mask_high_bits value bit` is `align64` to `1 << bit`.
mask_high_bits-align64 : (v k : ℕ) → v < 2 ^ 64 → k < 64 → mask_high_bits v k ≡ align64 v (2 ^ k)
unfolding mask_high_bits
mask_high_bits-align64 v k hv hk =
    rw (neg_mask k hk) (bit_and-high k (64 - k) v (rw (room k hk) hv)) ∙ sym (align64-eq v k hv hk)

-- For a 64-bit value and a bit `k` below 64, `align64` to `2 ^ k` is the greatest multiple of `2 ^
-- k` that is at most the value.
pub align64_lem :
    (v k : ℕ)
    → v < 2 ^ 64
    → k < 64
    → (align64 v (2 ^ k) ≤ v) × (v < align64 v (2 ^ k) + 2 ^ k) × (align64 v (2 ^ k) % 2 ^ k ≡ 0)
align64_lem v k hv hk = rw (align64-eq v k hv hk) (
  div-mul-le_self v (2 ^ k),
  lt-div-mul-add {a = v} (two_pow_pos k),
  mul-mod_left (v / 2 ^ k) (2 ^ k),
)

-- What `align64_up` adds: the distance to the next multiple.
abbrev gap : ℕ → ℕ → ℕ
gap p v = if v % p == 0 then 0 else p - v % p

module _ (p v : ℕ) (hp : 1 ≤ p) where
  quotient_lt : (q : ℕ) → v < p * q → v / p < q
  quotient_lt q h = (div-lt_iff_lt-mul {k = p} {x = v} {y = q} hp).1 (omega arith)

  split_at : (q : ℕ) → v / p < q → q ≡ v / p + 1 + (q - v / p - 1)
  split_at q lt = omega arith

  sub-whole : (q : ℕ) → v / p < q → v % p ≡ 0 → p * q - v ≡ 0 + p * (1 + (q - v / p - 1))
  sub-whole q lt z = omega (arith, div-add-mod v p, ap (λ (t : ℕ). p * t) (split_at q lt))

  sub-part : (q : ℕ) → v / p < q → p * q - v ≡ p - v % p + p * (q - v / p - 1)
  sub-part q lt =
      omega (arith, div-add-mod v p, mod-lt v {m = p} hp, ap (λ (t : ℕ). p * t) (split_at q lt))

  mod-sub : (q : ℕ) → v < p * q → (p * q - v) % p ≡ gap p v
  mod-sub q h =
      let lt : v / p < q = quotient_lt q h in
      elim (Bool-cases (v % p == 0)) [
        | inl z ↦
            rw (z, sub-whole q lt ((==_iff (v % p) 0).0 z))
              (add-mul-mod_self_left 0 p (1 + (q - v / p - 1)) ∙ zero-mod p)
        | inr n ↦
            rw (n, sub-part q lt)
              (add-mul-mod_self_left (p - v % p) p (q - v / p - 1) ∙ mod-eq_of_lt (below n))
      ]
    where
      below : (v % p == 0) ≡ false → p - v % p < p
      below n = ground (arith, mod-lt v {m = p} hp)

  round_up : (v + (p - 1)) / p * p ≡ v + gap p v
  round_up = elim (Bool-cases (v % p == 0)) [
    | inl z ↦
        rw (z, exact ((==_iff (v % p) 0).0 z))
          (omega (arith, div-add-mod v p, (==_iff (v % p) 0).0 z))
    | inr n ↦ rw (n, next n) (omega (arith, div-add-mod v p, mod-lt v {m = p} hp))
  ]
    where
      exact : v % p ≡ 0 → (v + (p - 1)) / p ≡ v / p
      exact z =
          div-eq_of_lt-le {k = v / p} p {m = v + (p - 1)} (omega (arith, div-add-mod v p))
            (omega (arith, div-add-mod v p))

      next : (v % p == 0) ≡ false → (v + (p - 1)) / p ≡ v / p + 1
      next n =
          div-eq_of_lt-le {k = v / p + 1} p {m = v + (p - 1)} (ground (arith, div-add-mod v p))
            (omega (arith, div-add-mod v p, mod-lt v {m = p} hp))

-- `-value & (align_to - 1)` is the gap to the next multiple.
neg-gap : (v k : ℕ) → v < 2 ^ 64 → k < 64 → neg64 v % 2 ^ k ≡ gap (2 ^ k) v
neg-gap zero k h hk = rw zero-mod
neg-gap (suc v) k h hk =
    ap (λ (t : ℕ). t % 2 ^ k) (unwrapped h)
    ∙ mod-sub (2 ^ k) (suc v) (two_pow_pos k) (2 ^ (64 - k)) (rw (room k hk) h)
  where
    unwrapped : suc v < 2 ^ 64 → neg64 (suc v) ≡ 2 ^ k * 2 ^ (64 - k) - suc v
    unwrapped h = omega (arith, room k hk)

-- `align64_up` to `2 ^ k` is the least multiple of `2 ^ k` that is at least the value, wrapped to
-- 64 bits.
pub align64_up-eq :
    (v k : ℕ) → v < 2 ^ 64 → k < 64 → align64_up v (2 ^ k) ≡ u64 ((v + (2 ^ k - 1)) / 2 ^ k * 2 ^ k)
unfolding align64_up
align64_up-eq v k hv hk =
    rw (round_up (2 ^ k) v (two_pow_pos k), low_ones k hk, bit_and-ones) (rw (neg-gap v k hv hk))

-- Rounding down a value that has wrapped.
down-wrap :
    (p q x : ℕ)
    → 1 ≤ p
    → p ≤ 2 ^ 64
    → p * q ≡ 2 ^ 64
    → x < 2 ^ 64 + p
    → u64 x / p * p ≡ u64 (x / p * p)
down-wrap p q x hp fits e h = elim (dec_lt x (2 ^ 64)) [
  | yes lt ↦
      rw (mod-eq_of_lt lt) (sym (mod-eq_of_lt (le_trans (suc-le-suc (div-mul-le_self x p)) lt)))
  | no ge ↦ rw (small ge, div-eq_of_lt {n = x - 2 ^ 64} {m = p} (omega arith), whole ge) (wrapped)
]
  where
    small : ¬ (x < 2 ^ 64) → u64 x ≡ x - 2 ^ 64
    small ge = omega arith

    whole : ¬ (x < 2 ^ 64) → x / p ≡ q
    whole ge = div-eq_of_lt-le {k = q} p {m = x} (omega (arith, e)) (omega (arith, e))

    wrapped : 0 * p ≡ u64 (q * p)
    wrapped = ground (arith, e)

-- The two bodies of `align64_up` agree for every 64-bit value, those that wrap included, and every
-- power of two below 2 ^ 64.
pub align64_up-impl_1 :
    (v k : ℕ) → v < 2 ^ 64 → k < 64 → align64_up_impl_1 v (2 ^ k) ≡ align64_up v (2 ^ k)
unfolding align64_up_impl_1
align64_up-impl_1 v k hv hk =
    ap (λ (t : ℕ). align64 t (2 ^ k)) (one_wrap k hk)
    ∙ align64-eq (u64 (v + (2 ^ k - 1))) k (omega arith) hk
    ∙ down-wrap (2 ^ k) (2 ^ (64 - k)) (v + (2 ^ k - 1)) (two_pow_pos k)
        (omega (arith, two_pow_lt k hk)) (room k hk) (omega (arith, two_pow_pos k))
    ∙ sym (align64_up-eq v k hv hk)
  where
    one_wrap : (k : ℕ) → k < 64 → u64 (u64 (v + 2 ^ k) + 2 ^ 64 - 1) ≡ u64 (v + (2 ^ k - 1))
    one_wrap k hk = omega (arith, two_pow_pos k)

-- For a bit `k` below 64, where rounding up does not leave 64 bits, the result is the least
-- multiple of `2 ^ k` that is at least the value.
align64_up_lem :
    (v k : ℕ)
    → k < 64
    → v + (2 ^ k - 1) < 2 ^ 64
    → (v ≤ align64_up v (2 ^ k))
      × (align64_up v (2 ^ k) < v + 2 ^ k)
      × (align64_up v (2 ^ k) % 2 ^ k ≡ 0)
align64_up_lem v k hk h =
    let up = v + (2 ^ k - 1) in
    let down = div-mul-le_self up (2 ^ k) in
    let above = lt-div-mul-add {a = up} (two_pow_pos k) in
    rw
      (
        align64_up-eq v k (omega (arith, two_pow_pos k)) hk,
        mod-eq_of_lt (le_trans (suc-le-suc down) h),
      )
      (
        omega (arith, above, two_pow_pos k),
        omega (arith, down, two_pow_pos k),
        mul-mod_left (up / 2 ^ k) (2 ^ k),
      )
