-- ===== src/Base/Text.antt =====
-- C strings as lists of bytes without the final zero, and what the sources use of <string.h> and
-- of `sscanf`: `%s` and `%lu`.
use Prim.Native.Char.{code}
use Prim.Native.String.{String}
use mm_exper.Base.{ℕ, ◌+◌, ◌-◌, ◌*◌, Bool, true, false, ◌&&◌, ◌||◌, ◌==◌, leb, ltb}
use mm_exper.Base.{Option, none, some, List, [], ◌∷◌, if◌then◌else◌}
use mm_exper.Base.Word.{invalid_value, neg64}

abbrev pub Bytes : Type 0
Bytes = List ℕ

-- The bytes of a literal; every literal here is ASCII.
abbrev pub codes : String → Bytes
codes String.[] = []
codes (String.◌∷◌ c s) = code c ∷ codes s

-- `strcmp (a, b) == 0`.
unfoldable pub str_eq : Bytes → Bytes → Bool
str_eq [] [] = true
str_eq (x ∷ xs) (y ∷ ys) = x == y && str_eq xs ys
str_eq _ _ = false

-- `strncmp (s, p, strlen (p)) == 0`.
unfoldable pub starts_with : Bytes → Bytes → Bool
starts_with s [] = true
starts_with [] (y ∷ ys) = false
starts_with (x ∷ xs) (y ∷ ys) = x == y && starts_with xs ys

-- `isspace`.
abbrev pub is_space : ℕ → Bool
is_space c = c == b' ' || (leb 9 c && leb c 13)

abbrev pub is_digit : ℕ → Bool
is_digit c = leb b'0' c && leb c b'9'

unfoldable pub skip_spaces : Bytes → Bytes
skip_spaces [] = []
skip_spaces (c ∷ cs) = if is_space c then skip_spaces cs else c ∷ cs

-- The bytes up to the first space, and what follows them.
unfoldable pub span_word : Bytes → Bytes × Bytes
span_word [] = ([], [])
span_word (c ∷ cs) =
    let (w, rest) = span_word cs in if is_space c then ([], c ∷ cs) else (c ∷ w, rest)

abbrev word_of : Bytes × Bytes → Option (Bytes × Bytes)
word_of ([], rest) = none
word_of (c ∷ cs, rest) = some (c ∷ cs, rest)

-- `%s`: the next word and the input behind it, or no conversion at the end of the input.
unfoldable pub scan_word : Bytes → Option (Bytes × Bytes)
unfolding skip_spaces span_word
scan_word s = word_of (span_word (skip_spaces s))

-- The digits at the front, read into `acc`. `strtoul` stays at `ULONG_MAX` on overflow.
unfoldable pub scan_digits : ℕ → Bytes → ℕ × Bytes
scan_digits acc [] = (acc, [])
scan_digits acc (c ∷ cs) =
    let next = acc * 10 + (c - b'0') in
    let (n, rest) = scan_digits (if ltb invalid_value next then invalid_value else next) cs in
    if is_digit c then (n, rest) else (acc, c ∷ cs)

unfoldable pub unsigned : Bytes → Option (ℕ × Bytes)
unfolding scan_digits
unsigned [] = none
unsigned (c ∷ cs) = if is_digit c then some (scan_digits 0 (c ∷ cs)) else none

-- `-n` wraps, as `strtoul` has it.
negated : Option (ℕ × Bytes) → Option (ℕ × Bytes)
negated none = none
negated (some (n, rest)) = some (neg64 n, rest)

unfoldable pub after_space : Bytes → Option (ℕ × Bytes)
unfolding unsigned negated
after_space [] = none
after_space (c ∷ cs) =
    if c == b'-'
    then negated (unsigned cs)
    else if c == b'+'
    then unsigned cs
    else unsigned (c ∷ cs)

-- `%lu`.
unfoldable pub scan_ulong : Bytes → Option (ℕ × Bytes)
unfolding skip_spaces after_space
scan_ulong s = after_space (skip_spaces s)

-- A digit of base 16.
unfoldable pub hex_digit_value : ℕ → Option ℕ
hex_digit_value c =
    if is_digit c
    then some (c - b'0')
    else if leb b'a' c && leb c b'f'
    then some (10 + c - b'a')
    else if leb b'A' c && leb c b'F'
    then some (10 + c - b'A')
    else none

unfoldable pub scan_hex_digits : ℕ → Bytes → ℕ × Bytes
scan_hex_digits acc [] = (acc, [])
scan_hex_digits acc (c ∷ cs) = elim (hex_digit_value c) [
  | none ↦ (acc, c ∷ cs)
  | some d ↦
      let next = acc * 16 + d in
      scan_hex_digits (if ltb invalid_value next then invalid_value else next) cs
]

unfoldable pub unsigned_hex : Bytes → Option (ℕ × Bytes)
unfolding scan_hex_digits
unsigned_hex [] = none
unsigned_hex (c ∷ cs) = elim (hex_digit_value c) [
  | none ↦ none
  | some d ↦ some (scan_hex_digits 0 (c ∷ cs))
]

-- Behind a prefix "0x", if a digit follows it.
prefixed : Option (ℕ × Bytes) → Option (ℕ × Bytes) → Option (ℕ × Bytes)
prefixed none plain = plain
prefixed (some r) plain = some r

unfoldable pub hex_number : Bytes → Option (ℕ × Bytes)
unfolding unsigned_hex prefixed
hex_number [] = none
hex_number (c ∷ []) = unsigned_hex (c ∷ [])
hex_number (c ∷ x ∷ cs) =
    if c == b'0' && (x == b'x' || x == b'X')
    then prefixed (unsigned_hex cs) (unsigned_hex (c ∷ x ∷ cs))
    else unsigned_hex (c ∷ x ∷ cs)

unfoldable pub hex_after_space : Bytes → Option (ℕ × Bytes)
unfolding hex_number negated
hex_after_space [] = none
hex_after_space (c ∷ cs) =
    if c == b'-'
    then negated (hex_number cs)
    else if c == b'+'
    then hex_number cs
    else hex_number (c ∷ cs)

-- `%lx`.
unfoldable pub scan_hex : Bytes → Option (ℕ × Bytes)
unfolding skip_spaces hex_after_space
scan_hex s = hex_after_space (skip_spaces s)
