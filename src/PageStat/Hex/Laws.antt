-- ===== src/PageStat/Hex/Laws.antt =====
-- `parse_hex` and `extract_address_range` against the numerals of `Spec`.
use native.Mathlib.Nat.{pow-suc, add-mul-mod_self_left, div-add-mod}
use mathlib.Core.List.{append-nil, append_assoc}
use mm_exper.Base.{ℕ, zero, suc, ◌+◌, ◌*◌, ◌/◌, ◌%◌, ◌^◌, ◌<◌, ◌≡◌, refl, sym, ap, ◌∙◌, arith}
use mm_exper.Base.{
  Option, none, some, List, [], ◌∷◌, ◌++◌, length, Option-cases, inl, inr, ◌==◌, false,
}
use mm_exper.Base.Word.{u64, invalid_value}
use mm_exper.Base.Text.{Bytes}
use mm_exper.PageStat.Hex.{
  hex_digit, parse_hex_from, parse_hex, split_at_dash, extract_address_range,
}
use mm_exper.PageStat.Hex.Spec.{hex_char, hex_text, hex_digits, hex_value}

-- A digit character is read as its digit, and is no dash.
hex_digit-hex_char : (d : ℕ) → d < 16 → hex_digit (hex_char d) ≡ some d
unfolding hex_digit
hex_digit-hex_char d h = ground arith

hex_char-ne-dash : (d : ℕ) → d < 16 → (hex_char d == b'-') ≡ false
hex_char-ne-dash d h = ground arith

-- One round of the loop, on the numbers.
shift_in : (r d p n : ℕ) → u64 (u64 (u64 (r * p + n / 16) * 2 ^ 4) + n % 16) ≡ u64 (r * p * 16 + n)
shift_in r d p n = omega arith

-- The parser on a numeral in front of any text.
parse_hex_from-hex_text :
    (k n ret : ℕ) (rest : Bytes)
    → ret < 2 ^ 64
    → n < 16 ^ k
    → parse_hex_from ret (hex_text k n ++ rest) ≡ parse_hex_from (u64 (ret * 16 ^ k + n)) rest
unfolding parse_hex_from
parse_hex_from-hex_text zero n ret rest hr h = ap (λ (t : ℕ). parse_hex_from t rest) (omega arith)
parse_hex_from-hex_text (suc k) n ret rest hr h =
    rw append_assoc (parse_hex_from-hex_text k (n / 16) ret (hex_char (n % 16) ∷ rest) hr high)
    ∙ last
  where
    high : n / 16 < 16 ^ k
    high = omega (arith, pow-suc 16 k)

    last :
        parse_hex_from (u64 (ret * 16 ^ k + n / 16)) (hex_char (n % 16) ∷ rest)
        ≡ parse_hex_from (u64 (ret * 16 ^ suc k + n)) rest
    last =
        rw (hex_digit-hex_char (n % 16) (omega arith), parse_hex_from)
          (ap (λ (t : ℕ). parse_hex_from t rest)
            (omega (arith, ap (λ (t : ℕ). ret * t) (pow-suc 16 k))))

-- A number below 2 ^ 64 that fits a number of hexadecimal digits is read back from its numeral of
-- that many digits.
parse_hex-hex_text : (k n : ℕ) → n < 16 ^ k → n < 2 ^ 64 → parse_hex (hex_text k n) ≡ n
unfolding parse_hex
parse_hex-hex_text k n h fits =
    ap (parse_hex_from 0) (sym (append-nil (hex_text k n)))
    ∙ parse_hex_from-hex_text k n 0 [] (omega arith) h
    ∙ wraps_to n fits
  where
    wraps_to : (n : ℕ) → n < 2 ^ 64 → parse_hex_from (u64 (0 * 16 ^ k + n)) [] ≡ n
    wraps_to n fits = unfold parse_hex_from in omega arith

-- A result of the loop from `ret` on a text with certain digits, or with a character that is none.
abbrev pub Reads : ℕ → Option (List ℕ) → ℕ → Type 0
Reads ret none r = r ≡ invalid_value
Reads ret (some ds) r = r ≡ u64 (ret * 16 ^ length ds + hex_value ds)

-- A factor may be wrapped before or after a sum is.
wrap-mul : (x p v : ℕ) → u64 (u64 x * p + v) ≡ u64 (x * p + v)
wrap-mul x p v =
    sym (add-mul-mod_self_left (u64 x * p + v) (2 ^ 64) (x / 2 ^ 64 * p))
    ∙ ap (λ (t : ℕ). u64 t) (omega (arith, ap (λ (t : ℕ). t * p) (div-add-mod x (2 ^ 64))))

Reads-cons :
    (d ret r : ℕ) (o : Option (List ℕ))
    → Reads (u64 (u64 (ret * 2 ^ 4) + d)) o r
    → Reads ret (elim o [ none ↦ none | some ds ↦ some (d ∷ ds) ]) r
Reads-cons d ret r none h = h
Reads-cons d ret r (some ds) h =
    h
    ∙ wrap-mul (u64 (ret * 2 ^ 4) + d) (16 ^ length ds) (hex_value ds)
    ∙ ap (λ (t : ℕ). u64 t) (omega arith)
    ∙ wrap-mul (ret * 2 ^ 4) (16 ^ length ds) (d * 16 ^ length ds + hex_value ds)
    ∙ ap (λ (t : ℕ). u64 t) (omega (arith, ap (λ (t : ℕ). ret * t) (pow-suc 16 (length ds))))

parse_hex_from-Reads :
    (s : Bytes) (ret : ℕ) → ret < 2 ^ 64 → Reads ret (hex_digits s) (parse_hex_from ret s)
unfolding parse_hex_from
parse_hex_from-Reads [] ret h = omega arith
parse_hex_from-Reads (c ∷ cs) ret h = elim (Option-cases (hex_digit c)) [
  | inl e ↦ rw (e, Reads, hex_digits, parse_hex_from) refl
  | inr (d, e) ↦
      rw (e, Reads, hex_digits, parse_hex_from)
        (Reads-cons d ret _ (hex_digits cs)
          (parse_hex_from-Reads cs (u64 (u64 (ret * 2 ^ 4) + d)) (omega arith)))
]

-- On any text `parse_hex` returns `INVALID_VALUE` if a character is no digit, and otherwise the value
-- of the digits, wrapped to 64 bits.
parse_hex-Reads : (s : Bytes) → Reads 0 (hex_digits s) (parse_hex s)
unfolding parse_hex
parse_hex-Reads s = parse_hex_from-Reads s 0 (omega arith)

-- The split of a range at its dash.
abbrev NoDash : Bytes → Type 0
NoDash [] = Unit
NoDash (c ∷ cs) = ((c == b'-') ≡ false) × NoDash cs

NoDash-append : (a b : Bytes) → NoDash a → NoDash b → NoDash (a ++ b)
NoDash-append [] b p q = q
NoDash-append (c ∷ a) b p q = (p.0, NoDash-append a b p.1 q)

NoDash-hex_text : (k n : ℕ) → NoDash (hex_text k n)
NoDash-hex_text zero n = tt
NoDash-hex_text (suc k) n =
    NoDash-append (hex_text k (n / 16)) _ (NoDash-hex_text k (n / 16))
      (hex_char-ne-dash (n % 16) (omega arith), tt)

split_at_dash-NoDash : (a b : Bytes) → NoDash a → split_at_dash (a ++ b'-' ∷ b) ≡ some (a, b)
unfolding split_at_dash
split_at_dash-NoDash [] b h = refl
split_at_dash-NoDash (c ∷ a) b h = rw (h.0, split_at_dash-NoDash a b h.1)

-- A range as the kernel prints it, each end in a number of digits that it fits and below
-- `INVALID_VALUE`, is read back.
pub extract_address_range-hex_text :
    (j k from to : ℕ)
    → from < 16 ^ j
    → to < 16 ^ k
    → from < invalid_value
    → to < invalid_value
    → extract_address_range (hex_text j from ++ b'-' ∷ hex_text k to) ≡ some (from, to)
unfolding extract_address_range
extract_address_range-hex_text j k from to hj hk hf ht =
    rw
      (
        split_at_dash-NoDash (hex_text j from) (hex_text k to) (NoDash-hex_text j from),
        extract_address_range,
      )
      (rw (parse_hex-hex_text j from hj (omega arith), parse_hex-hex_text k to hk (omega arith))
        (ground arith))
