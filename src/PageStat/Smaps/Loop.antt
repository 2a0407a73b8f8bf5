-- ===== src/PageStat/Smaps/Loop.antt =====
-- Where the loop over the field lines ends: it reads the next mapping's header line to notice the
-- end of its own mapping, and that line is then gone from the file.
use mm_exper.Base.{
  ◌≡◌, ◌≢◌, refl, sym, ap, ◌∙◌, arith, true, false, Option, none, some, List, [], ◌∷◌, ◌++◌,
}
use mm_exper.Base.{Option-cases}
use mm_exper.Base.Text.{Bytes, codes, str_eq, scan_word, scan_ulong}
use mm_exper.PageStat.Data.{PageStat}
use mm_exper.PageStat.Smaps.{
  Scratch, Locals, Round, fail, stop, next, scan_field, round, read_fields, store_field,
  is_smap_header_field,
}

-- A line whose first word does not end in a colon, with no number behind that word.
pub record IsHeaderLine (line : Bytes) : Type 0 where
  pub word : Bytes
  pub behind : Bytes
  pub scanned : scan_word line ≡ some (word, behind)
  pub no_number : scan_ulong behind ≡ none
  pub no_colon : is_smap_header_field word ≡ true

-- A line whose first word ends in a colon.
pub record IsFieldLine (line : Bytes) : Type 0 where
  pub word : Bytes
  pub behind : Bytes
  pub scanned : scan_word line ≡ some (word, behind)
  pub colon : is_smap_header_field word ≡ false

abbrev pub AreFieldLines : List Bytes → Type 0
AreFieldLines [] = Unit
AreFieldLines (line ∷ lines) = IsFieldLine line × AreFieldLines lines

abbrev HoldsUnit : Scratch → Type 0
HoldsUnit s = str_eq s.unit (codes "kB") ≡ true

-- A round that goes on has read, or kept, the unit "kB".
round-HoldsUnit :
    (start s : Scratch) (ms ms' : PageStat) (line : Bytes)
    → round start ms line ≡ next s ms'
    → HoldsUnit s
unfolding round
round-HoldsUnit start s ms ms' line e =
    ground (arith, Option-cases (store_field ms line (scan_field start line)))

-- A header line ends the loop, if the locals still hold the unit of the line before.
round_header :
    (start : Scratch) (ms : PageStat) (line : Bytes)
    → IsHeaderLine line
    → HoldsUnit start
    → round start ms line ≡ stop
unfolding round scan_field
round_header start ms line h u = ground (arith, h.scanned, h.no_number, h.no_colon)

key-scan_field :
    (start : Scratch) (line : Bytes) (f : IsFieldLine line) → (scan_field start line).key ≡ f.word
unfolding scan_field
key-scan_field start line f = ground (arith, f.scanned)

-- A field line does not end it.
round_field :
    (start : Scratch) (ms : PageStat) (line : Bytes) → IsFieldLine line → round start ms line ≢ stop
unfolding round
round_field start ms line f e = ground (
  arith,
  key-scan_field start line f,
  f.colon,
  Option-cases (store_field ms line (scan_field start line)),
)

module _ (locals : Locals) where
  read_fields-nil :
      (start : Scratch) (ms : PageStat) → read_fields locals start ms [] ≡ (some ms, [])
  unfolding read_fields
  read_fields-nil start ms = refl

  read_fields-stop :
      (start : Scratch) (ms : PageStat) (line : Bytes) (lines : List Bytes)
      → round start ms line ≡ stop
      → read_fields locals start ms (line ∷ lines) ≡ (some ms, lines)
  unfolding read_fields
  read_fields-stop start ms line lines e = rw (e, read_fields) refl

  read_fields-next :
      (start s : Scratch) (ms ms' : PageStat) (line : Bytes) (lines : List Bytes)
      → round start ms line ≡ next s ms'
      → read_fields locals start ms (line ∷ lines) ≡ read_fields locals (locals.kept s) ms' lines
  unfolding read_fields
  read_fields-next start s ms ms' line lines e = rw (e, read_fields) refl

  read_fields-fail :
      (start : Scratch) (ms : PageStat) (line : Bytes) (lines : List Bytes)
      → round start ms line ≡ fail
      → read_fields locals start ms (line ∷ lines) ≡ (none, lines)
  unfolding read_fields
  read_fields-fail start ms line lines e = rw (e, read_fields) refl

-- The loop over field lines ends alike at the end of the file and at a header line behind them, and
-- takes the header line out of the file.
abbrev EndsAlike : Locals → PageStat → Bytes → List Bytes → Scratch → PageStat → List Bytes → Type 0
EndsAlike locals ms' header rest start ms lines =
    read_fields locals start ms lines ≡ (some ms', [])
    → read_fields locals start ms (lines ++ header ∷ rest) ≡ (some ms', rest)

module _ (locals : Locals) (retained : (s : Scratch) → locals.kept s ≡ s) where
  module _ (ms' : PageStat) (header : Bytes) (h : IsHeaderLine header) (rest : List Bytes) where
    after_round :
        (start : Scratch) (ms : PageStat) (line : Bytes) (lines : List Bytes)
        → IsFieldLine line
        → ((s : Scratch) (ms'' : PageStat)
            → HoldsUnit s
            → EndsAlike locals ms' header rest s ms'' lines)
        → (r : Round) → round start ms line ≡ r
        → EndsAlike locals ms' header rest start ms (line ∷ lines)
    after_round start ms line lines f ih fail e p =
        cc (read_fields-fail locals start ms line lines e)
    after_round start ms line lines f ih stop e p = absurd (round_field start ms line f e)
    after_round start ms line lines f ih (next s ms'') e p =
        read_fields-next locals start s ms ms'' line (lines ++ header ∷ rest) e
        ∙ rw (retained s) (
            ih s ms'' (round-HoldsUnit start s ms ms'' line e)
              (rw (← retained s) (sym (read_fields-next locals start s ms ms'' line lines e) ∙ p)))

    from_unit :
        (lines : List Bytes) (start : Scratch) (ms : PageStat)
        → AreFieldLines lines
        → HoldsUnit start
        → EndsAlike locals ms' header rest start ms lines
    from_unit [] start ms a u = λ e.
        read_fields-stop locals start ms header rest (round_header start ms header h u) ∙ at_end e
      where
        at_end :
            read_fields locals start ms [] ≡ (some ms', [])
            → ◌≡◌ {A = Option PageStat × List Bytes} (some ms, rest) (some ms', rest)
        at_end e =
            ap (λ (t : Option PageStat × List Bytes). (t.0, rest))
              (sym (read_fields-nil locals start ms) ∙ e)
    from_unit (line ∷ lines) start ms a u =
        after_round start ms line lines a.0 (λ s ms'' v. from_unit lines s ms'' a.1 v)
          (round start ms line) refl

    -- From the first round on: one field line is enough for the locals to hold the unit.
    pub read_fields-header :
        (line : Bytes) (lines : List Bytes) (start : Scratch) (ms : PageStat)
        → AreFieldLines (line ∷ lines)
        → EndsAlike locals ms' header rest start ms (line ∷ lines)
    read_fields-header line lines start ms a =
        after_round start ms line lines a.0 (λ s ms'' v. from_unit lines s ms'' a.1 v)
          (round start ms line) refl
