-- ===== src/Base/Numerals/Signed.antt =====
-- `%d` reads back what it prints.
use mm_exper.Base.{ℕ, suc, ◌-◌, ◌%◌, ◌^◌, ◌<◌, ◌≡◌, refl, ap, ◌∙◌, arith}
use mm_exper.Base.{true, false, ◌==◌, ltb, if◌then◌else◌}
use mm_exper.Base.{Option, none, some, [], ◌∷◌, ◌++◌}
use mm_exper.Base.Int.{ℤ, pos, negsuc}
use mm_exper.Base.Text.{Bytes, is_digit, skip_spaces, unsigned}
use mm_exper.Base.Numerals.{dec_numeral, int_numeral}
use mm_exper.Base.Numerals.Dec.{
  Starts, dec_numeral-Starts, skip_spaces-Starts, unsigned-dec_numeral,
}

-- A value of 32 bits as an `int`.
abbrev to_int : ℕ → ℤ
to_int v = if ltb v (2 ^ 31) then pos v else negsuc (2 ^ 32 - 1 - v)

-- `strtol` stays at `LONG_MAX` and `LONG_MIN` on overflow, and the result is cast to `int`.
abbrev at_most : ℕ → ℕ → ℕ
at_most most n = if ltb most n then most else n

abbrev positive : Option (ℕ × Bytes) → Option (ℤ × Bytes)
positive none = none
positive (some (n, rest)) = some (to_int (at_most (2 ^ 63 - 1) n % 2 ^ 32), rest)

abbrev negative : Option (ℕ × Bytes) → Option (ℤ × Bytes)
negative none = none
negative (some (n, rest)) = some (to_int ((2 ^ 64 - at_most (2 ^ 63) n) % 2 ^ 32), rest)

unfoldable pub int_after_space : Bytes → Option (ℤ × Bytes)
int_after_space [] = none
int_after_space (c ∷ cs) =
    if c == b'-'
    then negative (unsigned cs)
    else if c == b'+'
    then positive (unsigned cs)
    else positive (unsigned (c ∷ cs))

-- `%d`.
unfoldable pub scan_int : Bytes → Option (ℤ × Bytes)
unfolding skip_spaces int_after_space
scan_int s = int_after_space (skip_spaces s)

-- The range of `int`.
abbrev pub IsInt : ℤ → Type 0
IsInt (pos n) = n < 2 ^ 31
IsInt (negsuc n) = n < 2 ^ 31

int_after_space-Starts : (s : Bytes) → Starts is_digit s → int_after_space s ≡ positive (unsigned s)
unfolding Starts int_after_space
int_after_space-Starts s (d, cs, e, same) = rw same (rw (no_minus d e, no_plus d e) refl)
  where
    no_minus : (d : ℕ) → is_digit d ≡ true → (d == b'-') ≡ false
    no_minus d e = ground arith

    no_plus : (d : ℕ) → is_digit d ≡ true → (d == b'+') ≡ false
    no_plus d e = ground arith

positive-int : (n : ℕ) (rest : Bytes) → n < 2 ^ 31 → positive (some (n, rest)) ≡ some (pos n, rest)
positive-int n rest h = ap (λ (t : ℤ). some (t, rest)) (ground arith)

negative-int :
    (n : ℕ) (rest : Bytes) → n < 2 ^ 31 → negative (some (suc n, rest)) ≡ some (negsuc n, rest)
negative-int n rest h = ap (λ (t : ℤ). some (t, rest)) (ground arith)

pub scan_int-int_numeral :
    (z : ℤ) (c : ℕ) (rest : Bytes)
    → IsInt z
    → is_digit c ≡ false
    → scan_int (int_numeral z ++ c ∷ rest) ≡ some (z, c ∷ rest)
unfolding scan_int skip_spaces
scan_int-int_numeral (pos n) c rest h e =
    let starts = dec_numeral-Starts n (c ∷ rest) in
    ap int_after_space (skip_spaces-Starts (dec_numeral n ++ c ∷ rest) starts)
    ∙ int_after_space-Starts (dec_numeral n ++ c ∷ rest) starts
    ∙ ap positive (unsigned-dec_numeral n c rest (omega arith) e)
    ∙ positive-int n (c ∷ rest) h
scan_int-int_numeral (negsuc n) c rest h e =
    ap negative (unsigned-dec_numeral (suc n) c rest (omega arith) e) ∙ negative-int n (c ∷ rest) h
