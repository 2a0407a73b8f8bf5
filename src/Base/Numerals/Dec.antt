-- ===== src/Base/Numerals/Dec.antt =====
-- `%lu` reads back what it prints.
use native.Mathlib.Nat.{pow-suc}
use mathlib.Core.List.{append_assoc}
use mm_exper.Base.{ℕ, zero, suc, ◌+◌, ◌-◌, ◌*◌, ◌/◌, ◌%◌, ◌^◌, ◌≤◌, ◌<◌, ◌≡◌, refl, ap, ◌∙◌, arith}
use mm_exper.Base.{Bool, true, false, ◌==◌, ltb}
use mm_exper.Base.{some, [], ◌∷◌, ◌++◌, length, length-append}
use mm_exper.Base.Word.{invalid_value}
use mm_exper.Base.Text.{
  Bytes, is_digit, is_space, skip_spaces, scan_digits, unsigned, after_space, scan_ulong,
}
use mm_exper.Base.Numerals.{dec_text, count_digits, dec_numeral}
use mm_exper.Base.Numerals.Count.{lt-count_digits, count_digits-suc, count_digits-le}

-- One digit more.
one_digit :
    (acc d : ℕ) (rest : Bytes)
    → d < 10
    → acc * 10 + d < 2 ^ 64
    → scan_digits acc ((b'0' + d) ∷ rest) ≡ scan_digits (acc * 10 + d) rest
unfolding scan_digits
one_digit acc d rest h fits =
    rw (digit d h) (ap (λ (t : ℕ). scan_digits t rest) (rw (kept acc d fits) (omega arith)))
  where
    digit : (d : ℕ) → d < 10 → is_digit (b'0' + d) ≡ true
    digit d h = ground arith

    kept :
        (acc d : ℕ)
        → acc * 10 + d < 2 ^ 64
        → ltb invalid_value (acc * 10 + (b'0' + d - b'0')) ≡ false
    kept acc d fits = ground arith

-- `%lu`.
scan_digits-dec_text :
    (k n acc : ℕ) (rest : Bytes)
    → n < 10 ^ k
    → acc * 10 ^ k + n < 2 ^ 64
    → scan_digits acc (dec_text k n ++ rest) ≡ scan_digits (acc * 10 ^ k + n) rest
unfolding scan_digits
scan_digits-dec_text zero n acc rest h fits = ap (λ (t : ℕ). scan_digits t rest) (omega arith)
scan_digits-dec_text (suc k) n acc rest h fits =
    rw append_assoc (
      scan_digits-dec_text k (n / 10) acc ((b'0' + n % 10) ∷ rest) (omega (arith, pow-suc 10 k))
        (omega (arith, scaled)))
    ∙ last
  where
    scaled : acc * 10 ^ suc k ≡ acc * 10 ^ k * 10
    scaled = omega (arith, ap (λ (t : ℕ). acc * t) (pow-suc 10 k))

    last :
        scan_digits (acc * 10 ^ k + n / 10) ((b'0' + n % 10) ∷ rest)
        ≡ scan_digits (acc * 10 ^ suc k + n) rest
    last =
        one_digit (acc * 10 ^ k + n / 10) (n % 10) rest (omega arith) (omega (arith, scaled))
        ∙ ap (λ (t : ℕ). scan_digits t rest) (omega (arith, scaled))

-- A numeral has a first digit.
unfoldable pub Starts : (ℕ → Bool) → Bytes → Type 0
Starts is s = (d : ℕ) × (cs : Bytes) × (is d ≡ true) × (s ≡ d ∷ cs)

dec_text-Starts : (k n : ℕ) (rest : Bytes) → Starts is_digit (dec_text (suc k) n ++ rest)
unfolding Starts
dec_text-Starts zero n rest = (b'0' + n % 10, rest, ground arith, refl)
dec_text-Starts (suc k) n rest =
    let s = dec_text-Starts k (n / 10) ((b'0' + n % 10) ∷ rest) in
    (s.0, s.1, s.2, append_assoc (dec_text (suc k) (n / 10)) _ rest ∙ s.3)

-- The numeral of a number is read up to the next byte.
pub dec_numeral-Starts : (n : ℕ) (rest : Bytes) → Starts is_digit (dec_numeral n ++ rest)
unfolding dec_numeral Starts
dec_numeral-Starts n rest =
    let (k, enough) = count_digits-suc 10 19 n in rw enough (dec_text-Starts k n rest)

scan_digits-dec_numeral :
    (n c : ℕ) (rest : Bytes)
    → n < 2 ^ 64
    → is_digit c ≡ false
    → scan_digits 0 (dec_numeral n ++ c ∷ rest) ≡ (n, c ∷ rest)
unfolding dec_numeral
scan_digits-dec_numeral n c rest fits e =
    let (k, enough) = count_digits-suc 10 19 n in
    let lt : n < 10 ^ suc k = rw enough at (lt-count_digits 10 19 n (omega arith) (omega arith)) in
    rw enough (
      scan_digits-dec_text (suc k) n 0 (c ∷ rest) lt (omega arith)
      ∙ ap (λ (t : ℕ). scan_digits t (c ∷ rest)) (omega arith)
      ∙ stops n c rest e)
  where
    stops : (n c : ℕ) (rest : Bytes) → is_digit c ≡ false → scan_digits n (c ∷ rest) ≡ (n, c ∷ rest)
    stops n c rest e = unfold scan_digits in rw (e, scan_digits) refl

-- A digit is no blank and no sign.
pub skip_spaces-Starts : (s : Bytes) → Starts is_digit s → skip_spaces s ≡ s
unfolding Starts skip_spaces
skip_spaces-Starts s (d, cs, e, same) = rw same (rw (no_space d e, skip_spaces) refl)
  where
    no_space : (d : ℕ) → is_digit d ≡ true → is_space d ≡ false
    no_space d e = ground arith

unsigned-Starts : (s : Bytes) → Starts is_digit s → unsigned s ≡ some (scan_digits 0 s)
unfolding Starts unsigned
unsigned-Starts s (d, cs, e, same) = rw same (rw e refl)

pub unsigned-dec_numeral :
    (n c : ℕ) (rest : Bytes)
    → n < 2 ^ 64
    → is_digit c ≡ false
    → unsigned (dec_numeral n ++ c ∷ rest) ≡ some (n, c ∷ rest)
unsigned-dec_numeral n c rest fits e =
    unsigned-Starts (dec_numeral n ++ c ∷ rest) (dec_numeral-Starts n (c ∷ rest))
    ∙ ap some (scan_digits-dec_numeral n c rest fits e)

after_space-Starts : (s : Bytes) → Starts is_digit s → after_space s ≡ unsigned s
unfolding Starts after_space
after_space-Starts s (d, cs, e, same) = rw same (rw (no_minus d e, no_plus d e) refl)
  where
    no_minus : (d : ℕ) → is_digit d ≡ true → (d == b'-') ≡ false
    no_minus d e = ground arith

    no_plus : (d : ℕ) → is_digit d ≡ true → (d == b'+') ≡ false
    no_plus d e = ground arith

pub scan_ulong-dec_numeral :
    (n c : ℕ) (rest : Bytes)
    → n < 2 ^ 64
    → is_digit c ≡ false
    → scan_ulong (dec_numeral n ++ c ∷ rest) ≡ some (n, c ∷ rest)
unfolding scan_ulong
scan_ulong-dec_numeral n c rest fits e =
    let starts = dec_numeral-Starts n (c ∷ rest) in
    ap after_space (skip_spaces-Starts (dec_numeral n ++ c ∷ rest) starts)
    ∙ after_space-Starts (dec_numeral n ++ c ∷ rest) starts
    ∙ unsigned-dec_numeral n c rest fits e

length-dec_text : (k n : ℕ) → length (dec_text k n) ≡ k
length-dec_text zero n = refl
length-dec_text (suc k) n =
    omega (
      arith,
      length-append (dec_text k (n / 10)) ((b'0' + n % 10) ∷ []),
      length-dec_text k (n / 10),
    )

-- No numeral has more than 20 digits.
pub length-dec_numeral : (n : ℕ) → length (dec_numeral n) ≤ 20
unfolding dec_numeral
length-dec_numeral n =
    omega (arith, length-dec_text (count_digits 10 19 n) n, count_digits-le 10 19 n)
