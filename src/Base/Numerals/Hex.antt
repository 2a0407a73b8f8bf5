-- ===== src/Base/Numerals/Hex.antt =====
-- `%lx` reads back what it prints.
use native.Mathlib.Nat.{pow-suc}
use mathlib.Core.List.{append_assoc}
use mm_exper.Base.{ℕ, zero, suc, ◌+◌, ◌*◌, ◌/◌, ◌%◌, ◌^◌, ◌≤◌, ◌<◌, ◌≡◌, refl, ap, ◌∙◌, arith}
use mm_exper.Base.{◌||◌, false, ◌==◌, ltb, Bool-cases, inl, inr}
use mm_exper.Base.{none, some, [], ◌∷◌, ◌++◌, length, length-append}
use mm_exper.Base.Word.{invalid_value}
use mm_exper.Base.Text.{
  Bytes, is_space, skip_spaces, hex_digit_value, scan_hex_digits, unsigned_hex, hex_number,
  hex_after_space, scan_hex,
}
use mm_exper.Base.Numerals.{hex_char, hex_text, count_digits, hex_numeral}
use mm_exper.Base.Numerals.Count.{lt-count_digits, count_digits-suc, count_digits-le}

-- `%lx`.
hex_digit_value-hex_char : (d : ℕ) → d < 16 → hex_digit_value (hex_char d) ≡ some d
unfolding hex_digit_value
hex_digit_value-hex_char d h = ground arith

one_hex_digit :
    (acc d : ℕ) (rest : Bytes)
    → d < 16
    → acc * 16 + d < 2 ^ 64
    → scan_hex_digits acc (hex_char d ∷ rest) ≡ scan_hex_digits (acc * 16 + d) rest
unfolding scan_hex_digits
one_hex_digit acc d rest h fits =
    rw (hex_digit_value-hex_char d h, scan_hex_digits) (rw (kept acc d fits) refl)
  where
    kept : (acc d : ℕ) → acc * 16 + d < 2 ^ 64 → ltb invalid_value (acc * 16 + d) ≡ false
    kept acc d fits = ground arith

scan_hex_digits-hex_text :
    (k n acc : ℕ) (rest : Bytes)
    → n < 16 ^ k
    → acc * 16 ^ k + n < 2 ^ 64
    → scan_hex_digits acc (hex_text k n ++ rest) ≡ scan_hex_digits (acc * 16 ^ k + n) rest
scan_hex_digits-hex_text zero n acc rest h fits =
    ap (λ (t : ℕ). scan_hex_digits t rest) (omega arith)
scan_hex_digits-hex_text (suc k) n acc rest h fits =
    rw append_assoc (
      scan_hex_digits-hex_text k (n / 16) acc (hex_char (n % 16) ∷ rest)
        (omega (arith, pow-suc 16 k)) (omega (arith, scaled)))
    ∙ one_hex_digit (acc * 16 ^ k + n / 16) (n % 16) rest (omega arith) (omega (arith, scaled))
    ∙ ap (λ (t : ℕ). scan_hex_digits t rest) (omega (arith, scaled))
  where
    scaled : acc * 16 ^ suc k ≡ acc * 16 ^ k * 16
    scaled = omega (arith, ap (λ (t : ℕ). acc * t) (pow-suc 16 k))

-- Two bytes at the front that are no prefix "0x", the first a digit.
StartsHex : Bytes → Type 0
StartsHex s =
    (d x : ℕ) × (cs : Bytes) × (d < 16)
    × ((x == b'x' || x == b'X') ≡ false)
    × (s ≡ hex_char d ∷ x ∷ cs)

hex_text-StartsHex :
    (k n c : ℕ) (rest : Bytes)
    → (c == b'x' || c == b'X') ≡ false
    → StartsHex (hex_text (suc k) n ++ c ∷ rest)
unfolding StartsHex
hex_text-StartsHex zero n c rest e = (n % 16, c, rest, omega arith, e, refl)
hex_text-StartsHex (suc k) n c rest e =
    let s =
      hex_text-StartsHex k (n / 16) (hex_char (n % 16)) (c ∷ rest) (not_x (n % 16) (omega arith)) in
    (s.0, s.1, s.2, s.3, s.4, append_assoc (hex_text (suc k) (n / 16)) _ (c ∷ rest) ∙ s.5)
  where
    not_x : (d : ℕ) → d < 16 → (hex_char d == b'x' || hex_char d == b'X') ≡ false
    not_x d h = ground arith

scan_hex-StartsHex : (s : Bytes) → StartsHex s → scan_hex s ≡ some (scan_hex_digits 0 s)
unfolding StartsHex scan_hex hex_after_space hex_number unsigned_hex skip_spaces
scan_hex-StartsHex s (d, x, cs, h, e, same) = rw same (
    rw (no_space d h, skip_spaces, hex_after_space, no_minus d h, no_plus d h, hex_number)
      (plain d h e))
  where
    no_space : (d : ℕ) → d < 16 → is_space (hex_char d) ≡ false
    no_space d h = ground arith

    no_minus : (d : ℕ) → d < 16 → (hex_char d == b'-') ≡ false
    no_minus d h = ground arith

    no_plus : (d : ℕ) → d < 16 → (hex_char d == b'+') ≡ false
    no_plus d h = ground arith

    ap_digit :
        (d : ℕ)
        → d < 16
        → unsigned_hex (hex_char d ∷ x ∷ cs) ≡ some (scan_hex_digits 0 (hex_char d ∷ x ∷ cs))
    ap_digit d h = rw (hex_digit_value-hex_char d h, unsigned_hex) refl

    plain :
        (d : ℕ)
        → d < 16
        → (x == b'x' || x == b'X') ≡ false
        → hex_number (hex_char d ∷ x ∷ cs) ≡ some (scan_hex_digits 0 (hex_char d ∷ x ∷ cs))
    plain d h e = elim (Bool-cases (hex_char d == b'0')) [
      | inl z ↦ rw (z, e, hex_number) (ap_digit d h)
      | inr z ↦ rw (z, hex_number) (ap_digit d h)
    ]

pub scan_hex-hex_numeral :
    (n c : ℕ) (rest : Bytes)
    → n < 2 ^ 64
    → hex_digit_value c ≡ none
    → (c == b'x' || c == b'X') ≡ false
    → scan_hex (hex_numeral n ++ c ∷ rest) ≡ some (n, c ∷ rest)
unfolding hex_numeral
scan_hex-hex_numeral n c rest fits e f =
    let (k, enough) = count_digits-suc 16 15 n in
    let lt : n < 16 ^ suc k = rw enough at (lt-count_digits 16 15 n (omega arith) (omega arith)) in
    rw enough (
      scan_hex-StartsHex _ (hex_text-StartsHex k n c rest f)
      ∙ ap some (
          scan_hex_digits-hex_text (suc k) n 0 (c ∷ rest) lt (omega arith)
          ∙ ap (λ (t : ℕ). scan_hex_digits t (c ∷ rest)) (omega arith)
          ∙ stops n c rest e))
  where
    stops :
        (n c : ℕ) (rest : Bytes)
        → hex_digit_value c ≡ none
        → scan_hex_digits n (c ∷ rest) ≡ (n, c ∷ rest)
    stops n c rest e = unfold scan_hex_digits in rw (e, scan_hex_digits) refl

length-hex_text : (k n : ℕ) → length (hex_text k n) ≡ k
length-hex_text zero n = refl
length-hex_text (suc k) n = omega (
  arith,
  length-append (hex_text k (n / 16)) (hex_char (n % 16) ∷ []),
  length-hex_text k (n / 16),
)

-- No numeral has more than 16 digits.
pub length-hex_numeral : (n : ℕ) → length (hex_numeral n) ≤ 16
unfolding hex_numeral
length-hex_numeral n =
    omega (arith, length-hex_text (count_digits 16 15 n) n, count_digits-le 16 15 n)
