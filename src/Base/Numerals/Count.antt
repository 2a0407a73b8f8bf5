-- ===== src/Base/Numerals/Count.antt =====
-- How many digits a numeral has.
use native.Mathlib.Nat.{pow-zero, pow-suc, div-lt_iff_lt-mul}
use mm_exper.Base.{ℕ, zero, suc, ◌*◌, ◌/◌, ◌^◌, ◌≤◌, ◌<◌, ◌≡◌, refl, ap, arith}
use mm_exper.Base.{ltb, Bool-cases, inl, inr}
use mm_exper.Base.Numerals.{count_digits}

pow-one : (b : ℕ) → b ^ 1 ≡ b
pow-one b = omega (arith, pow-suc b 0, ap (λ (t : ℕ). t * b) (pow-zero b))

-- The digits are enough.
pub lt-count_digits :
    (base most n : ℕ) → 1 ≤ base → n < base ^ suc most → n < base ^ count_digits base most n
unfolding count_digits
lt-count_digits base zero n h lt = lt
lt-count_digits base (suc most) n h lt = elim (Bool-cases (ltb n base)) [
  | inl e ↦ rw (e, count_digits, pow-one base) (ground (arith, e))
  | inr e ↦
      rw (e, count_digits, pow-suc base (count_digits base most (n / base)))
        ((div-lt_iff_lt-mul h).0 (
          lt-count_digits base most (n / base) h
            ((div-lt_iff_lt-mul h).1 (rw (pow-suc base (suc most)) at lt))))
]

pub count_digits-suc : (base most n : ℕ) → (k : ℕ) × (count_digits base most n ≡ suc k)
unfolding count_digits
count_digits-suc base zero n = (0, refl)
count_digits-suc base (suc most) n = elim (Bool-cases (ltb n base)) [
  | inl e ↦ (0, rw (e, count_digits) refl)
  | inr e ↦ (count_digits base most (n / base), rw (e, count_digits) refl)
]

pub count_digits-le : (base most n : ℕ) → count_digits base most n ≤ suc most
unfolding count_digits
count_digits-le base zero n = omega arith
count_digits-le base (suc most) n = ground (arith, count_digits-le base most (n / base))
