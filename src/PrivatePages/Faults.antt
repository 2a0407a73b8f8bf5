-- ===== src/PrivatePages/Faults.antt =====
-- Which accesses of random/private2.c lie behind the mappings or the file.
use native.Mathlib.Nat.{suc-mul, add-mul, add-mul-div_left, div-eq_of_lt, mul_comm, mul-div_left}
use mm_exper.Base.{
  ℕ, zero, suc, ◌+◌, ◌-◌, ◌*◌, ◌/◌, ◌^◌, ◌≤◌, ◌<◌, ◌≡◌, refl, ap, ◌∙◌, arith, ◌&&◌, if◌then◌else◌,
}
use mm_exper.Base.{ltb, bit_and, List, [], ◌∷◌, ◌++◌}
use mm_exper.Base.Word.{sub64, bit_not}
use mm_exper.Base.Masks.{two_pow_pos, two_pow_lt}
use mm_exper.Bitwise.{align64}
use mm_exper.Bitwise.Align.{align64-eq}
use mm_exper.BlockVsFile.{round_up}
use mm_exper.PrivatePages.{Access, write, read, Stage, every, num_pages}

abbrev pub offset : Access → ℕ
offset (write m at) = at
offset (read m at) = at

-- The accesses that do not lie in a mapping of `limit` bytes and in the file.
unfoldable pub outside : ℕ → ℕ → List Access → List Access
outside limit file [] = []
outside limit file (a ∷ rest) =
    let others = outside limit file rest in
    if ltb (offset a) limit && ltb (offset a) file then others else a ∷ others

unfoldable pub all_outside : ℕ → List Stage → List Access
all_outside limit [] = []
all_outside limit (s ∷ ss) = outside limit s.file_size s.accesses ++ all_outside limit ss

module _ (limit file : ℕ) where
  pub outside-append :
      (xs ys : List Access)
      → outside limit file (xs ++ ys) ≡ outside limit file xs ++ outside limit file ys
  unfolding outside
  outside-append [] ys = refl
  outside-append (a ∷ xs) ys = ground (arith, outside-append xs ys)

  module _ (f : ℕ → Access) (offsets : (i : ℕ) → offset (f i) ≡ i) (step : ℕ)
      (step_pos : 0 < step) where
    shift : (i n : ℕ) → (suc i + n) * step ≡ (i + suc n) * step
    shift i n = ap (λ (t : ℕ). t * step) {x = suc i + n} {y = i + suc n} (omega arith)

    pub every-inside :
        (n i : ℕ)
        → (i + n) * step ≤ limit
        → (i + n) * step ≤ file
        → outside limit file (every f step n i) ≡ []
    unfolding outside every
    every-inside zero i hl hf = refl
    every-inside (suc n) i hl hf = ground (
      arith,
      every-inside n (suc i) (rw (shift i n) hl) (rw (shift i n) hf),
      offsets (i * step),
      add-mul i (suc n) step,
      suc-mul n step,
    )

    here : (at : ℕ) → at ≡ limit → limit < file → outside limit file (f at ∷ []) ≡ f limit ∷ []
    unfolding outside
    here at e hf = rw e (ground (arith, offsets limit))

    -- The last offset of a loop is the limit.
    pub every-last :
        (n i : ℕ)
        → (i + n) * step ≡ limit
        → limit < file
        → outside limit file (every f step (suc n) i) ≡ f limit ∷ []
    unfolding outside every
    every-last zero i hl hf =
        here (i * step) (ap (λ (t : ℕ). t * step) {x = i} {y = i + 0} (omega arith) ∙ hl) hf
    every-last (suc n) i hl hf = ground (
      arith,
      every-last n (suc i) (shift i n ∙ hl) hf,
      offsets (i * step),
      add-mul i (suc n) step,
      suc-mul n step,
    )

pub num_pages_lem :
    (n k : ℕ) → k < 32 → n * 2 ^ k + 2 ^ k < 2 ^ 64 → num_pages (2 ^ k) (n * 2 ^ k) ≡ n
unfolding num_pages round_up align64
num_pages_lem n k hk hn =
    ap (λ (t : ℕ). bit_and (n * 2 ^ k + 2 ^ k - 1) (bit_not t) / 2 ^ k) {y = sub64 (2 ^ k) 1}
      (omega (arith, two_pow_pos k, two_pow_lt k (omega arith)))
    ∙ ap (λ (t : ℕ). t / 2 ^ k)
        (align64-eq (n * 2 ^ k + 2 ^ k - 1) k (omega (arith, two_pow_pos k)) (omega arith))
    ∙ mul-div_left ((n * 2 ^ k + 2 ^ k - 1) / 2 ^ k) (two_pow_pos k)
    ∙ ap (λ (t : ℕ). t / 2 ^ k) {y = 2 ^ k - 1 + 2 ^ k * n}
        (omega (arith, two_pow_pos k, mul_comm n (2 ^ k)))
    ∙ add-mul-div_left (2 ^ k - 1) n (two_pow_pos k)
    ∙ ap (λ (t : ℕ). t + n)
        (div-eq_of_lt {n = 2 ^ k - 1} {m = 2 ^ k} (omega (arith, two_pow_pos k)))
    ∙ omega arith
