-- ===== src/MremapBench/Relocate/Laws.antt =====
-- What a run of time_relocate leaves mapped, and the time that it gives.
use mm_exper.Base.{ℕ, ◌+◌, ◌*◌, ◌^◌, ◌<◌, ◌≡◌, refl, ◌∙◌, sym, arith, Bool, true, false, not}
use mm_exper.Base.{◌&&◌, ◌||◌, ltb, leb, if◌then◌else◌, Bool-cases, inl, inr}
use mm_exper.Base.{Option, none, some, List, [], ◌∷◌, ◌++◌}
use mm_exper.MremapBench.{map_anywhere, unmap, map_fixed, mmap_aligned}
use mm_exper.MremapBench.Aligned.{mmap_aligned_lem}
use mm_exper.MremapBench.Relocate.{
  source, target, Reloc, Kernel, Step, call, move, calls, Outcome, wrong_byte, not_paged_out,
  on_mapped, map_and_populate_region, populated, reserve_region, check_move, after_move,
  with_regions, with_source, time_relocate,
}

abbrev pub within : ℕ → ℕ → ℕ → Bool
within a p n = leb p a && ltb a (p + n)

-- Whether an address is mapped behind a step, by whether it is in front of it.
abbrev behind : ℕ → Step → Bool → Bool
behind a (call (map_anywhere p n)) s = within a p n || s
behind a (call (map_fixed p n)) s = within a p n || s
behind a (call (unmap p n)) s = not (within a p n) && s
behind a (move src n dst m) s = within a dst m || (not (within a src n) && s)

abbrev pub is_mapped : ℕ → List Step → Bool → Bool
is_mapped a [] s = s
is_mapped a (t ∷ ts) s = is_mapped a ts (behind a t s)

-- What is left mapped by how a run ends: the target, where a byte is wrong or the pages are not
-- reclaimed, and else nothing.
abbrev pub left_over : ℕ → ℕ → Outcome → Bool
left_over a len (wrong_byte dst) = within a dst len
left_over a len (not_paged_out dst) = within a dst len
left_over a len _ = false

is_mapped-append :
    (a : ℕ) (ts us : List Step) (s : Bool)
    → is_mapped a (ts ++ us) s ≡ is_mapped a us (is_mapped a ts s)
is_mapped-append a [] us s = refl
is_mapped-append a (t ∷ ts) us s = is_mapped-append a ts us (behind a t s)

abbrev in_region : ℕ → Option ℕ → ℕ → Bool
in_region a none len = false
in_region a (some p) len = within a p len

abbrev pub align_of : Bool → ℕ → ℕ
align_of aligned k = if aligned then 2 ^ k else 0

-- The kernel gives ranges of the address space, which does not wrap.
abbrev pub Fits : Option ℕ → ℕ → ℕ → Type 0
Fits o len align = (p : ℕ) → o ≡ some p → p + len + 2 * align < 2 ^ 64

module _ (a len k : ℕ) (fixed : Bool) (small : k < 64) where
  behind_aligned :
      (q : ℕ) (w s fixed : Bool)
      → is_mapped a (calls (if fixed then map_fixed q len ∷ [] else [])) (not w && (w || s))
        ≡ (in_region a (if fixed then some q else none) len || (not w && s))
  behind_aligned q true s true = refl
  behind_aligned q false s true = refl
  behind_aligned q true s false = refl
  behind_aligned q false s false = refl

  ends : (b w : Bool) → (b || (not w && false)) ≡ b
  ends true w = refl
  ends false true = refl
  ends false false = refl

  mapped_from_nothing :
      (o : Option ℕ) (aligned : Bool)
      → Fits o len (align_of aligned k)
      → let m = mmap_aligned o fixed len (align_of aligned k) in
        is_mapped a (calls m.calls) false ≡ in_region a m.ptr len
  unfolding mmap_aligned
  mapped_from_nothing none aligned fits = refl
  mapped_from_nothing (some p) false fits = ground arith
  mapped_from_nothing (some p) true fits =
      let (q, after, inside, at, eq) = mmap_aligned_lem p len k small (fits p refl) fixed in
      rw eq (behind_aligned q (within a p (len + 2 * 2 ^ k)) false fixed ∙ ends _ _)

  mapped_or_before :
      (o : Option ℕ) (aligned s : Bool)
      → Fits o len (align_of aligned k)
      → let m = mmap_aligned o fixed len (align_of aligned k) in
        is_mapped a (calls m.calls) s ≡ true → in_region a m.ptr len ≡ false → s ≡ true
  unfolding mmap_aligned
  mapped_or_before none aligned s fits = λ h g. h
  mapped_or_before (some p) false s fits = λ h g. ground (arith, h, g)
  mapped_or_before (some p) true s fits =
      let (q, after, inside, at, eq) = mmap_aligned_lem p len k small (fits p refl) fixed in
      rw eq (λ h g. ground (arith, behind_aligned q (within a p (len + 2 * 2 ^ k)) s fixed, h, g))

  from_nothing :
      (o : Option ℕ) (aligned : Bool) (align : ℕ)
      → align ≡ align_of aligned k
      → Fits o len align
      → let m = mmap_aligned o fixed len align in
        is_mapped a (calls m.calls) false ≡ in_region a m.ptr len
  from_nothing o aligned align at = rw at (mapped_from_nothing o aligned)

  or_before :
      (o : Option ℕ) (aligned s : Bool) (align : ℕ)
      → align ≡ align_of aligned k
      → Fits o len align
      → let m = mmap_aligned o fixed len align in
        is_mapped a (calls m.calls) s ≡ true → in_region a m.ptr len ≡ false → s ≡ true
  or_before o aligned s align at = rw at (mapped_or_before o aligned s)

module _ (a len : ℕ) where
  -- A mapping that is given back where `madvise` fails.
  kept_or_not :
      (bad : Bool) (o : Option ℕ) (ts : List Step)
      → is_mapped a ts false ≡ in_region a o len
      → let made = on_mapped o ts (λ ptr.
        if bad
        then record { ptr = none; steps = call (unmap ptr len) ∷ [] }
        else record { ptr = some ptr; steps = [] }) in
        is_mapped a made.steps false ≡ in_region a made.ptr len
  kept_or_not bad none ts h = h
  kept_or_not true (some p) ts h =
      is_mapped-append a ts (call (unmap p len) ∷ []) false ∙ ground (arith, h)
  kept_or_not false (some p) ts h = is_mapped-append a ts [] false ∙ h

  -- One that is given back at once.
  not_kept :
      (o : Option ℕ) (ts : List Step) (s : Bool)
      → (is_mapped a ts s ≡ true → in_region a o len ≡ false → s ≡ true)
      → is_mapped a
          (on_mapped o ts
            (λ ptr. record { ptr = some ptr; steps = call (unmap ptr len) ∷ [] })).steps
          s
        ≡ true
      → s ≡ true
  not_kept none ts s before h = before h refl
  not_kept (some p) ts s before h =
      ground (arith, before, h, is_mapped-append a ts (call (unmap p len) ∷ []) s)

module _ (kernel : Kernel) (reloc : Reloc) (a k : ℕ) (aligned : Bool) (small : k < 64)
    (at : reloc.align ≡ align_of aligned k) where
  source_mapped :
      Fits (kernel.mmap source) reloc.old_len reloc.align
      → let made = map_and_populate_region kernel reloc in
        is_mapped a made.steps false ≡ in_region a made.ptr reloc.old_len
  unfolding map_and_populate_region
  source_mapped fits = kept_or_not a reloc.old_len (reloc.nohuge && not kernel.advise_nohuge) _ _ (
      from_nothing a reloc.old_len k (kernel.map_fixed source) small (kernel.mmap source) aligned
        reloc.align at fits)

  target_free :
      Fits (kernel.mmap target) reloc.new_len reloc.align
      → kernel.munmap ≡ true
      → (s : Bool) → is_mapped a (reserve_region kernel reloc).steps s ≡ true
      → s ≡ true
  unfolding reserve_region
  target_free fits can s = rw can (
      not_kept a reloc.new_len _ _ s (
        or_before a reloc.new_len k (kernel.map_fixed target) small (kernel.mmap target) aligned s
          reloc.align at fits))

  after_move_left :
      (dst : ℕ) (s : Bool)
      → s ≡ within a dst reloc.new_len
      → let rest = after_move kernel reloc dst in
        is_mapped a rest.steps s ≡ left_over a reloc.new_len rest.outcome
  unfolding after_move
  after_move_left dst s h = elim (Bool-cases (check_move reloc (kernel.moved (populated reloc)))) [
    | inr e ↦ rw e h
    | inl e ↦ elim (Bool-cases kernel.advise_pageout) [
      | inr f ↦ rw (e, f) h
      | inl f ↦ rw (e, f) (unmapped (within a dst reloc.new_len) s h)
    ]
  ]
    where
      unmapped : (w s : Bool) → s ≡ w → (not w && s) ≡ false
      unmapped w s h = ground (arith, h)

  with_regions_left :
      (src : ℕ) (o : Option ℕ) (s : Bool)
      → (s ≡ true → within a src reloc.old_len ≡ true)
      → let rest = with_regions kernel reloc src o in
        is_mapped a rest.steps s ≡ left_over a reloc.new_len rest.outcome
  unfolding with_regions
  with_regions_left src none s h = ground (arith, h)
  with_regions_left src (some dst) s h = elim (Bool-cases (kernel.mremap reloc.relocate)) [
    | inl e ↦ rw e (
        after_move_left dst _ (moved (within a dst reloc.new_len) (within a src reloc.old_len) s h))
    | inr e ↦ rw e (gone (within a src reloc.old_len) s h)
  ]
    where
      gone : (w s : Bool) → (s ≡ true → w ≡ true) → (not w && s) ≡ false
      gone w s h = ground (arith, h)

      moved : (v w s : Bool) → (s ≡ true → w ≡ true) → (v || (not w && s)) ≡ v
      moved v w s h = ground (arith, h)

  with_source_left :
      Fits (kernel.mmap target) reloc.new_len reloc.align
      → kernel.munmap ≡ true
      → (o : Option ℕ) (s : Bool) → s ≡ in_region a o reloc.old_len
      → let rest = with_source kernel reloc o in
        is_mapped a rest.steps s ≡ left_over a reloc.new_len rest.outcome
  unfolding with_source
  with_source_left fits can none s h = h
  with_source_left fits can (some src) s h =
      is_mapped-append a (reserve_region kernel reloc).steps _ s
      ∙ with_regions_left src (reserve_region kernel reloc).ptr _
          (λ t. sym h ∙ target_free fits can s t)

  -- What is mapped behind time_relocate, of what it mapped itself: if the run ends with a wrong byte or
  -- without the pages being reclaimed, exactly the target, and otherwise nothing, whichever call
  -- fails. The alignment is a power of two, or none; the ranges that the kernel gives lie in an address
  -- space that does not wrap; and it can unmap the range that it has just mapped for the target.
  pub time_relocate-left :
      Fits (kernel.mmap source) reloc.old_len reloc.align
      → Fits (kernel.mmap target) reloc.new_len reloc.align
      → kernel.munmap ≡ true
      → let r = time_relocate kernel reloc in
        is_mapped a r.steps false ≡ left_over a reloc.new_len r.outcome
  unfolding time_relocate
  time_relocate-left fits fits' can =
      is_mapped-append a (map_and_populate_region kernel reloc).steps _ false
      ∙ with_source_left fits' can (map_and_populate_region kernel reloc).ptr _ (source_mapped fits)
