-- ===== src/PageStat/Snapshot/Laws.antt =====
-- What a snapshot takes out of the smaps file, and so which mappings `pagestat_snapshot_all` finds.
use mm_exper.Base.{◌≡◌, refl, sym, ap, ◌∙◌, Option, none, some, List, [], ◌∷◌, ◌++◌}
use mm_exper.Base.{ℕ}
use mm_exper.Base.Text.{Bytes, scan_word}
use mm_exper.Base.Word.{invalid_value}
use mm_exper.Base.Proc.{Proc}
use mm_exper.PageStat.Data.{PageStat, cleared}
use mm_exper.PageStat.Hex.{extract_address_range}
use mm_exper.PageStat.Smaps.{Scratch, Locals, get_smap_header_fields, get_smap_other_fields}
use mm_exper.PageStat.Smaps.Loop.{IsHeaderLine, IsFieldLine, AreFieldLines, read_fields-header}
use mm_exper.PageStat.PageTable.{get_pagetable_fields}
use mm_exper.PageStat.Snapshot.{
  Search, gone, Taken, find_header, word_or, finish, fill, on_search, get_pagestat_snapshot,
  on_range,
}

-- The lines of one mapping: its header and at least one field.
pub record Block : Type 0 where
  pub header : Bytes
  pub field : Bytes
  pub fields : List Bytes

abbrev pub block_lines : Block → List Bytes
block_lines b = b.header ∷ b.field ∷ b.fields

abbrev pub all_lines : List Block → List Bytes
all_lines [] = []
all_lines (b ∷ bs) = block_lines b ++ all_lines bs

pub record IsBlock (b : Block) : Type 0 where
  pub header_line : IsHeaderLine b.header
  pub field_lines : AreFieldLines (b.field ∷ b.fields)

word_or-scanned : (held line w r : Bytes) → scan_word line ≡ some (w, r) → word_or held line ≡ w
unfolding word_or
word_or-scanned held line w r e = rw (e, word_or) refl

module _ (locals : Locals) (vaddr : ℕ) where
  -- The search passes over a field line.
  find_header-field :
      (held f : Bytes) (h : IsFieldLine f) (lines : List Bytes)
      → find_header locals vaddr held (f ∷ lines)
        ≡ find_header locals vaddr (locals.kept_word h.word) lines
  unfolding find_header
  find_header-field held f h lines =
      rw (word_or-scanned held f h.word h.behind h.scanned, h.colon) refl

  find_header-header :
      (held line : Bytes) (h : IsHeaderLine line) (lines : List Bytes)
      → find_header locals vaddr held (line ∷ lines)
        ≡ on_range vaddr
            (extract_address_range h.word)
            line
            lines
            (find_header locals vaddr (locals.kept_word h.word) lines)
  unfolding find_header
  find_header-header held line h lines =
      rw (word_or-scanned held line h.word h.behind h.scanned, h.no_colon) refl

  find_header-fields :
      (fields : List Bytes) (header : Bytes) (lines : List Bytes) (held held' : Bytes)
      → AreFieldLines fields
      → IsHeaderLine header
      → find_header locals vaddr held (fields ++ header ∷ lines)
        ≡ find_header locals vaddr held' (header ∷ lines)
  find_header-fields [] header lines held held' a h =
      find_header-header held header h lines ∙ sym (find_header-header held' header h lines)
  find_header-fields (f ∷ fields) header lines held held' a h =
      find_header-field held f a.0 (fields ++ header ∷ lines)
      ∙ find_header-fields fields header lines (locals.kept_word a.0.word) held' a.1 h

  find_header-only_fields :
      (fields : List Bytes) (held : Bytes)
      → AreFieldLines fields
      → find_header locals vaddr held fields ≡ gone []
  find_header-only_fields [] held a = unfold find_header in refl
  find_header-only_fields (f ∷ fields) held a =
      find_header-field held f a.0 fields
      ∙ find_header-only_fields fields (locals.kept_word a.0.word) a.1

module _ (proc : Proc) (locals : Locals) (pid : Bytes) where
  -- The snapshot of a mapping whose lines are all that is in the file.
  abbrev pub TakenAs : Block → PageStat → Type 0
  TakenAs b ps = get_pagestat_snapshot proc locals pid (block_lines b) invalid_value ≡ (some ps, [])

  -- What such a snapshot went through.
  record Parts (b : Block) (h : IsHeaderLine b.header) (ps : PageStat) : Type 0 where
    from : ℕ
    to : ℕ
    headed : PageStat
    filled : PageStat
    range : extract_address_range h.word ≡ some (from, to)
    header_fields : get_smap_header_fields (cleared from to) b.header ≡ some headed
    other_fields : get_smap_other_fields locals headed (b.field ∷ b.fields) ≡ (some filled, [])
    table : get_pagetable_fields proc pid filled ≡ some ps

  finish-inv :
      (t : Taken) (ps : PageStat)
      → finish proc locals pid t ≡ (some ps, [])
      → (filled : PageStat) × (t ≡ (some filled, []))
        × (get_pagetable_fields proc pid filled ≡ some ps)
  unfolding finish
  finish-inv (none, lines) ps e = cc
  finish-inv (some filled, lines) ps e =
      (filled, ap (λ (t : Taken). (some filled, t.1)) e, ap (λ (t : Taken). t.0) e)

  fill-inv :
      (o : Option PageStat) (lines : List Bytes) (ps : PageStat)
      → fill proc locals pid o lines ≡ (some ps, [])
      → (headed : PageStat) × (o ≡ some headed)
        × (finish proc locals pid (get_smap_other_fields locals headed lines) ≡ (some ps, []))
  unfolding fill
  fill-inv none lines ps e = cc
  fill-inv (some headed) lines ps e = (headed, refl, e)

  range-inv :
      (r : Option (ℕ × ℕ)) (line : Bytes) (lines : List Bytes) (rest : Search) (ps : PageStat)
      → on_search proc locals pid (on_range invalid_value r line lines rest) ≡ (some ps, [])
      → (from : ℕ) × (to : ℕ) × (r ≡ some (from, to))
        × (fill proc locals pid (get_smap_header_fields (cleared from to) line) lines
            ≡ (some ps, []))
  unfolding on_search
  range-inv none line lines rest ps e = cc
  range-inv (some (from, to)) line lines rest ps e = (from, to, refl, e)

  TakenAs-Parts :
      (b : Block) (ps : PageStat) (h : IsBlock b) → TakenAs b ps → Parts b h.header_line ps
  unfolding get_pagestat_snapshot
  TakenAs-Parts b ps h e =
      let l = h.header_line in
      let fs = b.field ∷ b.fields in
      let start = find_header-header locals invalid_value locals.first_word b.header l fs in
      let (from, to, range, filling) =
        range-inv (extract_address_range l.word) b.header fs _ ps
          (ap (on_search proc locals pid) (sym start) ∙ e) in
      let (headed, header_fields, finishing) = fill-inv _ fs ps filling in
      let (filled, other_fields, table) = finish-inv _ ps finishing in
      record {
        from = from;
        to = to;
        headed = headed;
        filled = filled;
        range = range;
        header_fields = header_fields;
        other_fields = other_fields;
        table = table;
      }

  -- With no header line left there is no snapshot.
  pub snapshot-only_fields :
      (skipped : List Bytes)
      → AreFieldLines skipped
      → get_pagestat_snapshot proc locals pid skipped invalid_value ≡ (none, [])
  unfolding get_pagestat_snapshot on_search
  snapshot-only_fields skipped a =
      ap (on_search proc locals pid)
        (find_header-only_fields locals invalid_value skipped locals.first_word a)

  -- A snapshot from its stages, on any lines.
  Parts-run :
      (b : Block) (h : IsHeaderLine b.header) (ps : PageStat) (p : Parts b h ps)
      (lines tail rest : List Bytes)
      → find_header locals invalid_value locals.first_word lines
        ≡ find_header locals invalid_value locals.first_word (b.header ∷ tail)
      → get_smap_other_fields locals p.headed tail ≡ (some p.filled, rest)
      → get_pagestat_snapshot proc locals pid lines invalid_value ≡ (some ps, rest)
  unfolding get_pagestat_snapshot on_search fill finish
  Parts-run b h ps p lines tail rest start other =
      ap (on_search proc locals pid) (
        start
        ∙ find_header-header locals invalid_value locals.first_word b.header h tail
        ∙ ap
            (λ (r : Option (ℕ × ℕ)).
              on_range invalid_value r b.header tail
                (find_header locals invalid_value (locals.kept_word h.word) tail))
            p.range)
      ∙ ap (λ (o : Option PageStat). fill proc locals pid o tail) p.header_fields
      ∙ ap (finish proc locals pid) other
      ∙ ap (λ (o : Option PageStat). (o, rest)) p.table

  -- The same mapping in a longer file: with field lines in front, which are passed over, and the next
  -- mapping behind, whose header line is lost.
  module _ (retained : (s : Scratch) → locals.kept s ≡ s) where
    pub snapshot-before_header :
        (skipped : List Bytes) (b : Block) (ps : PageStat) (header : Bytes) (rest : List Bytes)
        → AreFieldLines skipped
        → IsBlock b
        → TakenAs b ps
        → IsHeaderLine header
        → get_pagestat_snapshot proc locals pid
            (skipped ++ (block_lines b ++ header ∷ rest))
            invalid_value
          ≡ (some ps, rest)
    snapshot-before_header skipped b ps header rest a h e next =
        let p = TakenAs-Parts b ps h e in
        Parts-run b h.header_line ps p _ (b.field ∷ (b.fields ++ header ∷ rest)) rest
          (find_header-fields locals invalid_value skipped b.header _ locals.first_word
            locals.first_word a h.header_line)
          (ends p)
      where
        ends :
            (p : Parts b h.header_line ps)
            → get_smap_other_fields locals p.headed (b.field ∷ (b.fields ++ header ∷ rest))
              ≡ (some p.filled, rest)
        ends p =
            unfold get_smap_other_fields in
            read_fields-header locals retained p.filled header next rest b.field b.fields
              locals.first p.headed h.field_lines p.other_fields

    -- At the end of the file.
    pub snapshot-last :
        (skipped : List Bytes) (b : Block) (ps : PageStat)
        → AreFieldLines skipped
        → IsBlock b
        → TakenAs b ps
        → get_pagestat_snapshot proc locals pid (skipped ++ block_lines b) invalid_value
          ≡ (some ps, [])
    snapshot-last skipped b ps a h e =
        let p = TakenAs-Parts b ps h e in
        Parts-run b h.header_line ps p _ (b.field ∷ b.fields) []
          (find_header-fields locals invalid_value skipped b.header _ locals.first_word
            locals.first_word a h.header_line)
          p.other_fields
