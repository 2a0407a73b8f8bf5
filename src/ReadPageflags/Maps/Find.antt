-- ===== src/ReadPageflags/Maps/Find.antt =====
-- Which line of /proc/self/maps `read_mapdata` reads.
use mm_exper.Base.{ℕ, zero, suc, ◌%◌, ◌/◌, ◌^◌, ◌<◌, ◌≡◌, refl, ap, ◌∙◌, arith}
use mm_exper.Base.{Bool, false, ◌&&◌, leb, ltb, Bool-cases, inl, inr, if◌then◌else◌}
use mm_exper.Base.{Option, none, some, List, [], ◌∷◌, ◌++◌, map, length, length-append}
use mm_exper.Base.Word.{invalid_value}
use mm_exper.Base.Text.{Bytes, codes, is_space, skip_spaces, span_word, scan_word}
use mm_exper.Base.Proc.{Proc}
use mm_exper.PageStat.Hex.Spec.{hex_char, hex_text}
use mm_exper.PageStat.Hex.Laws.{extract_address_range-hex_text}
use mm_exper.ReadPageflags.Hex.{extract_address_range}
use mm_exper.ReadPageflags.Same.{extract_address_range-same}
use mm_exper.ReadPageflags.Maps.{
  MapData, extract_mapdata, word_or, on_range, find_line, on_search, read_mapdata,
}

-- A word in front of a space is what `%s` reads.
abbrev NoSpace : Bytes → Type 0
NoSpace [] = Unit
NoSpace (c ∷ cs) = (is_space c ≡ false) × NoSpace cs

NoSpace-append : (a b : Bytes) → NoSpace a → NoSpace b → NoSpace (a ++ b)
NoSpace-append [] b p q = q
NoSpace-append (c ∷ a) b p q = (p.0, NoSpace-append a b p.1 q)

hex_char-no_space : (d : ℕ) → d < 16 → is_space (hex_char d) ≡ false
hex_char-no_space d h = ground arith

NoSpace-hex_text : (k n : ℕ) → NoSpace (hex_text k n)
NoSpace-hex_text zero n = tt
NoSpace-hex_text (suc k) n =
    NoSpace-append (hex_text k (n / 16)) _ (NoSpace-hex_text k (n / 16))
      (hex_char-no_space (n % 16) (omega arith), tt)

span_word-NoSpace : (w rest : Bytes) → NoSpace w → span_word (w ++ b' ' ∷ rest) ≡ (w, b' ' ∷ rest)
unfolding span_word
span_word-NoSpace [] rest h = refl
span_word-NoSpace (c ∷ w) rest h = rw (h.0, span_word-NoSpace w rest h.1) refl

word_or-NoSpace :
    (w rest held : Bytes) → NoSpace w → 0 < length w → word_or held (w ++ b' ' ∷ rest) ≡ w
unfolding scan_word skip_spaces
word_or-NoSpace [] rest held h pos = absurd (omega arith)
word_or-NoSpace (c ∷ w) rest held h pos =
    rw (h.0, word_or, scan_word, skip_spaces, span_word-NoSpace (c ∷ w) rest h) refl

-- A line as the kernel prints it: the ends of the range, each in some number of digits, and what
-- follows the space behind them.
pub record MapsLine : Type 0 where
  pub from : ℕ
  pub to : ℕ
  pub from_digits : ℕ
  pub to_digits : ℕ
  pub rest : Bytes

abbrev range_text : MapsLine → Bytes
range_text m = hex_text m.from_digits m.from ++ b'-' ∷ hex_text m.to_digits m.to

abbrev pub line_text : MapsLine → Bytes
line_text m = range_text m ++ b' ' ∷ m.rest

pub record IsMapsLine (m : MapsLine) : Type 0 where
  pub from_fits : m.from < 16 ^ m.from_digits
  pub to_fits : m.to < 16 ^ m.to_digits
  pub from_valid : m.from < invalid_value
  pub to_valid : m.to < invalid_value

abbrev pub AreMapsLines : List MapsLine → Type 0
AreMapsLines [] = Unit
AreMapsLines (m ∷ ms) = IsMapsLine m × AreMapsLines ms

-- The first range that an address is in.
abbrev pub first_with : ℕ → List MapsLine → Option MapsLine
first_with ptr [] = none
first_with ptr (m ∷ ms) = if leb m.from ptr && ltb ptr m.to then some m else first_with ptr ms

-- What `read_mapdata` does with it.
abbrev pub described : Option MapsLine → Bool × Option MapData
described none = (false, none)
described (some m) = let (ret, out) = extract_mapdata (line_text m) in (ret, some out)

word-range : (m : MapsLine) (held : Bytes) → word_or held (line_text m) ≡ range_text m
word-range m held =
    word_or-NoSpace (range_text m) m.rest held
      (NoSpace-append (hex_text m.from_digits m.from) _ (NoSpace-hex_text m.from_digits m.from)
        (refl, NoSpace-hex_text m.to_digits m.to))
      (omega (
        arith,
        length-append {0} (hex_text m.from_digits m.from) (b'-' ∷ hex_text m.to_digits m.to),
      ))

range_read :
    (m : MapsLine) → IsMapsLine m → extract_address_range (range_text m) ≡ some (m.from, m.to)
range_read m h =
    extract_address_range-same (range_text m)
    ∙ extract_address_range-hex_text m.from_digits m.to_digits m.from m.to h.from_fits h.to_fits
        h.from_valid h.to_valid

find_line-first :
    (kept : Bytes → Bytes) (ptr : ℕ) (held : Bytes) (ms : List MapsLine)
    → AreMapsLines ms
    → on_search (find_line kept ptr held (map line_text ms)) ≡ described (first_with ptr ms)
unfolding find_line
find_line-first kept ptr held [] h = refl
find_line-first kept ptr held (m ∷ ms) h =
    ap
      (λ (r : Option (ℕ × ℕ)). on_search (
        on_range ptr r (line_text m)
          (find_line kept ptr (kept (word_or held (line_text m))) (map line_text ms))))
      (ap extract_address_range (word-range m held) ∙ range_read m h.0)
    ∙ (elim (Bool-cases (leb m.from ptr && ltb ptr m.to)) [
      | inl e ↦ rw e refl
      | inr e ↦ rw e (find_line-first kept ptr (kept (word_or held (line_text m))) ms h.1)
    ])

-- On lines as the kernel prints them, `read_mapdata` reads the first whose range has the address, and
-- fails if none has; what it holds in an uninitialised buffer does not matter.
pub read_mapdata-first :
    (proc : Proc) (kept : Bytes → Bytes) (held : Bytes) (ptr : ℕ) (ms : List MapsLine)
    → AreMapsLines ms
    → proc.lines (codes "/proc/self/maps") ≡ some (map line_text ms)
    → read_mapdata proc kept held ptr ≡ described (first_with ptr ms)
unfolding read_mapdata
read_mapdata-first proc kept held ptr ms h e =
    rw (e, read_mapdata) (find_line-first kept ptr held ms h)
