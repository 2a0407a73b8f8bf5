-- ===== src/Bitwise/Bits.antt =====
-- Single bits: testing one, clearing the lowest, and what `share_highest_bit` decides.
use native.Mathlib.Nat.{
  div-eq_of_lt-le, div-mul-le_self, lt-div-mul-add, pow-suc, lt_of_mul-lt-mul_right,
}
use mm_exper.Base.{ℕ, suc, ◌+◌, ◌-◌, ◌*◌, ◌/◌, ◌%◌, ◌^◌, ◌≤◌, ◌<◌, ◌≡◌, sym, ap, ◌∙◌, arith}
use mm_exper.Base.{bit_and, bit_xor, ◌==◌}
use mm_exper.Base.Masks.{
  two_pow_pos, two_pow_lt, two_pow_add, bit_and-neg, bit_and-two_pow, bit_xor-div, bit_xor-one,
}
use mm_exper.Base.Word.{neg64}
use mm_exper.Bitwise.{is_bit_set, share_highest_bit, clear_lowest_bit}

-- For a bit below 64, `is_bit_set` reads that binary digit of the value.
is_bit_set-eq : (v bit : ℕ) → bit < 64 → is_bit_set v bit ≡ (v / 2 ^ bit % 2 == 1)
unfolding is_bit_set
is_bit_set-eq v bit h =
    ground (arith, ap (bit_and v) (in_range bit h), bit_and-two_pow bit v, two_pow_pos bit)
  where
    in_range : (bit : ℕ) → bit < 64 → 1 * 2 ^ bit % 2 ^ 64 ≡ 2 ^ bit
    in_range bit h = omega (arith, two_pow_lt bit h)

-- Numbers are in the order of their quotients, where those differ.
lt-div : (p x y : ℕ) → 1 ≤ p → x / p < y / p → x < y
lt-div p x y hp h = grind (arith, lt-div-mul-add {a = x} {b = p} hp, div-mul-le_self y p)

-- With bit `k` the highest of `a`, `a ^ b` differs from `b` first in that bit.
xor_above :
    (a b k : ℕ)
    → 2 ^ k ≤ a
    → a < 2 ^ k * 2
    → bit_xor a b / 2 ^ k + b / 2 ^ k % 2 ≡ b / 2 ^ k + (1 - b / 2 ^ k % 2)
xor_above a b k lo hi =
    rw (bit_xor-div k a b, div-eq_of_lt-le {k = 1} (2 ^ k) {m = a} (omega arith) (omega arith))
      (bit_xor-one (b / 2 ^ k))

-- Where bit `k` is the highest set bit of `a`, `share_highest_bit a b` is bit `k` of `b`: it holds of
-- every `b` that has the bit, whatever bits `b` has above it.
share_highest_bit-eq :
    (a b k : ℕ) → 2 ^ k ≤ a → a < 2 ^ k * 2 → share_highest_bit a b ≡ (b / 2 ^ k % 2 == 1)
unfolding share_highest_bit
share_highest_bit-eq a b k lo hi = ground (
  arith,
  xor_above a b k lo hi,
  lt-div (2 ^ k) (bit_xor a b) b (two_pow_pos k),
  lt-div (2 ^ k) b (bit_xor a b) (two_pow_pos k),
)

width : (k : ℕ) → k < 64 → 2 ^ suc (63 - k) * 2 ^ k ≡ 2 ^ 64
width k hk = sym (two_pow_add (suc (63 - k)) k) ∙ ap (λ (t : ℕ). 2 ^ t) (total k hk)
  where
    total : (k : ℕ) → k < 64 → suc (63 - k) + k ≡ 64
    total k hk = omega arith

-- `value & -value` keeps the lowest set bit alone.
and-neg64 :
    (q k : ℕ)
    → k < 64
    → (2 * q + 1) * 2 ^ k < 2 ^ 64
    → bit_and ((2 * q + 1) * 2 ^ k) (neg64 ((2 * q + 1) * 2 ^ k)) ≡ 2 ^ k
and-neg64 q k hk h =
    ap (bit_and ((2 * q + 1) * 2 ^ k)) (omega (arith, width k hk, two_pow_pos k))
    ∙ bit_and-neg k (63 - k) q below
  where
    below : q < 2 ^ (63 - k)
    below =
        let e : (2 * q + 1) * 2 ^ k < 2 ^ suc (63 - k) * 2 ^ k = rw (width k hk) h in
        let s : 2 * q + 1 < 2 ^ suc (63 - k) = lt_of_mul-lt-mul_right (2 ^ k) e in
        omega (arith, pow-suc 2 (63 - k))

-- On a 64-bit value whose lowest set bit is `k`, with `q` above it, `clear_lowest_bit` clears that
-- bit and keeps the bits above it.
clear_lowest_bit-eq :
    (q k : ℕ)
    → k < 64
    → (2 * q + 1) * 2 ^ k < 2 ^ 64
    → clear_lowest_bit ((2 * q + 1) * 2 ^ k) ≡ 2 * q * 2 ^ k
unfolding clear_lowest_bit
clear_lowest_bit-eq q k hk h = omega (arith, and-neg64 q k hk h, two_pow_pos k)
