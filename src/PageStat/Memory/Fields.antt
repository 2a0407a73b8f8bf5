-- ===== src/PageStat/Memory/Fields.antt =====
-- Which of a snapshot's pointers are set, by the lines that are read.
use mm_exper.Base.{
  ℕ, suc, ◌/◌, ◌≡◌, ◌⊎◌, refl, ap, ◌∙◌, sym, arith, Bool, true, false, ◌||◌, if◌then◌else◌, inl,
  inr, Option-cases,
}
use mm_exper.Base.{Option, none, some, List, [], ◌∷◌}
use mm_exper.Base.Text.{Bytes}
use mm_exper.Base.Proc.{Proc}
use mm_exper.PageStat.Data.{PageStat, cleared}
use mm_exper.PageStat.Smaps.{
  Locals, Scratch, Round, fail, stop, next, round, scan_field, store_field, read_fields,
  get_smap_header_fields, get_smap_other_fields, scan_header,
}
use mm_exper.PageStat.PageTable.{
  get_pagetable_fields, tweak_counts, read_u64s, pagemap_path, count_virt_pages,
}
use mm_exper.PageStat.Snapshot.{Search, found, gone}
use mm_exper.PageStat.Memory.{is_some, is_vm_flags, flags_stored, is_positive}

-- What a round does to the two pointers.
abbrev pub KeptIn : PageStat → Bool → Option PageStat → Type 0
KeptIn ms flags none = Unit
KeptIn ms flags (some ms') =
    (is_some ms'.name ≡ is_some ms.name) × (is_some ms'.vm_flags ≡ (is_some ms.vm_flags || flags))

or_true : (b : Bool) → (b || true) ≡ true
or_true true = refl
or_true false = refl

pub or_false : (b : Bool) → (b || false) ≡ b
or_false true = refl
or_false false = refl

store_field-KeptIn :
    (ms : PageStat) (line : Bytes) (s : Scratch)
    → KeptIn ms (is_vm_flags s.key) (store_field ms line s)
unfolding store_field
store_field-KeptIn ms line s =
    ground (arith, or_true (is_some ms.vm_flags), or_false (is_some ms.vm_flags))

round-KeptIn :
    (start s : Scratch) (ms ms' : PageStat) (line : Bytes)
    → round start ms line ≡ next s ms'
    → KeptIn ms (is_vm_flags s.key) (some ms')
unfolding round
round-KeptIn start s ms ms' line e = ground (
  arith,
  store_field-KeptIn ms line (scan_field start line),
  Option-cases (store_field ms line (scan_field start line)),
)

then_kept :
    (ms ms' : PageStat) (flags : Bool) (n : ℕ) (o : Option PageStat)
    → KeptIn ms flags (some ms')
    → KeptIn ms' (is_positive n) o
    → KeptIn ms (is_positive (if flags then suc n else n)) o
then_kept ms ms' flags n none h k = tt
then_kept ms ms' true n (some ms'') (named, flagged) (named', flagged') =
    (named' ∙ named, ground (arith, flagged, flagged', or_true (is_some ms.vm_flags)))
then_kept ms ms' false n (some ms'') (named, flagged) (named', flagged') =
    (named' ∙ named, ground (arith, flagged, flagged', or_false (is_some ms.vm_flags)))

module _ (locals : Locals) where
  module _ (start : Scratch) (ms : PageStat) (line : Bytes) (lines : List Bytes) where
    flags_end :
        (round start ms line ≡ fail) ⊎ (round start ms line ≡ stop)
        → flags_stored locals start ms (line ∷ lines) ≡ 0
    unfolding flags_stored
    flags_end (inl e) = rw (flags_stored, e) refl
    flags_end (inr e) = rw (flags_stored, e) refl

    flags_next :
        (s : Scratch) (ms' : PageStat)
        → round start ms line ≡ next s ms'
        → flags_stored locals start ms (line ∷ lines) ≡ (
            let rest = flags_stored locals (locals.kept s) ms' lines in
            if is_vm_flags s.key then suc rest else rest)
    unfolding flags_stored
    flags_next s ms' e = rw (flags_stored, e) refl

    fields_fail :
        round start ms line ≡ fail → read_fields locals start ms (line ∷ lines) ≡ (none, lines)
    unfolding read_fields
    fields_fail e = rw (read_fields, e) refl

    fields_stop :
        round start ms line ≡ stop → read_fields locals start ms (line ∷ lines) ≡ (some ms, lines)
    unfolding read_fields
    fields_stop e = rw (read_fields, e) refl

    fields_next :
        (s : Scratch) (ms' : PageStat)
        → round start ms line ≡ next s ms'
        → read_fields locals start ms (line ∷ lines) ≡ read_fields locals (locals.kept s) ms' lines
    unfolding read_fields
    fields_next s ms' e = rw (read_fields, e) refl

    by_round :
        (r : Round)
        → round start ms line ≡ r
        → ((s : Scratch) (ms' : PageStat)
            → KeptIn ms'
                (is_positive (flags_stored locals (locals.kept s) ms' lines))
                (read_fields locals (locals.kept s) ms' lines).0)
        → KeptIn ms
            (is_positive (flags_stored locals start ms (line ∷ lines)))
            (read_fields locals start ms (line ∷ lines)).0
    by_round fail e ih = rw (fields_fail e) tt
    by_round stop e ih =
        rw (fields_stop e, flags_end (inr e)) (refl, sym (or_false (is_some ms.vm_flags)))
    by_round (next s ms') e ih =
        rw (fields_next s ms' e, flags_next s ms' e)
          (then_kept ms ms' (is_vm_flags s.key) (flags_stored locals (locals.kept s) ms' lines) _
            (round-KeptIn start s ms ms' line e) (ih s ms'))

  -- The number of flags that are stored says whether the pointer is set.
  fields-KeptIn :
      (start : Scratch) (ms : PageStat) (lines : List Bytes)
      → KeptIn ms
          (is_positive (flags_stored locals start ms lines))
          (read_fields locals start ms lines).0
  unfolding read_fields flags_stored
  fields-KeptIn start ms [] = (refl, sym (or_false (is_some ms.vm_flags)))
  fields-KeptIn start ms (line ∷ lines) =
      by_round start ms line lines (round start ms line) refl
        (λ s ms'. fields-KeptIn (locals.kept s) ms' lines)

pub header_flags :
    (from to : ℕ) (line : Bytes) (ms : PageStat)
    → get_smap_header_fields (cleared from to) line ≡ some ms
    → ms.vm_flags ≡ none
unfolding get_smap_header_fields
header_flags from to line ms e = ground (arith, Option-cases (scan_header line))

module _ (proc : Proc) (pid : Bytes) where
  tweak_counts-KeptIn : (ps : PageStat) → KeptIn ps false (some (tweak_counts proc ps))
  unfolding tweak_counts
  tweak_counts-KeptIn ps = ground (arith, or_false (is_some ps.vm_flags))

  pub get_pagetable_fields-KeptIn :
      (ms : PageStat) → KeptIn ms false (get_pagetable_fields proc pid ms)
  unfolding get_pagetable_fields
  get_pagetable_fields-KeptIn ms =
      elim (Option-cases (
        read_u64s proc (pagemap_path pid) (ms.vma_start / proc.page_size)
          (count_virt_pages proc ms))) [
            | inl e ↦ rw (get_pagetable_fields, e) tt
            | inr (entries, e) ↦ rw (get_pagetable_fields, e) (tweak_counts-KeptIn _)
          ]

module _ (locals : Locals) where
  -- The number of flags that a call stores.
  abbrev pub flags_behind : Option PageStat → List Bytes → ℕ
  flags_behind none lines = 0
  flags_behind (some ms) lines = flags_stored locals locals.first ms lines

  abbrev pub flags_in : Search → ℕ
  flags_in (gone rest) = 0
  flags_in (found from to line lines) =
      flags_behind (get_smap_header_fields (cleared from to) line) lines

  pub fields_pointers :
      (ms : PageStat) (lines : List Bytes)
      → ms.vm_flags ≡ none
      → (ms' : PageStat) → (get_smap_other_fields locals ms lines).0 ≡ some ms'
      → (is_some ms'.name ≡ is_some ms.name)
        × (is_some ms'.vm_flags ≡ is_positive (flags_stored locals locals.first ms lines))
  unfolding get_smap_other_fields
  fields_pointers ms lines clear ms' e =
      let k : KeptIn ms (is_positive (flags_stored locals locals.first ms lines)) (some ms') =
        rw e at (fields-KeptIn locals locals.first ms lines) in
      (
        k.0,
        k.1
            ∙ ap
                (λ (o : Option Bytes).
                  is_some o || is_positive (flags_stored locals locals.first ms lines))
                clear,
      )
