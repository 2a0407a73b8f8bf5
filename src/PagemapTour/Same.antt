-- ===== src/PagemapTour/Same.antt =====
-- The tour reads an entry as pagestat does.
use mm_exper.Base.{
  ℕ, ◌^◌, ◌<◌, ◌≡◌, refl, ap, ◌∙◌, arith, Bool, true, false, ◌&&◌, Bool-cases, inl, inr,
  if◌then◌else◌, bit_and,
}
use mm_exper.Base.{[], ◌∷◌}
use mathlib.Core.Path.{ap₂}
use mm_exper.Base.Masks.{bit_and-ones, bit_and-two_pow, two_pow_pos}
use mm_exper.Base.Proc.{Proc}
use mm_exper.Base.Output.{Output, text, dec, pointer}
use mm_exper.Base.Run.{Run, then_run, print, say}
use mm_exper.PageStat.Entry
use mm_exper.PageStat.Entry.Laws.{check_bit-eq, swap_fields}
use mm_exper.PageStat.Print.Flags.{KernelFlags}
use mm_exper.PagemapTour.{
  has, pagemap_pfn_mask, describe_swapped, frame_line, describe_entry, read_pagemap, describe_addr,
}

-- What an entry is by the functions of pagestat: a page with a frame, a swapped page, or neither.
abbrev pub swapped_line : ℕ → Output
swapped_line val =
    text "swapped: type="
    ∷ dec (Entry.swap_type val)
    ∷ text ", offset="
    ∷ dec (Entry.swap_offset val)
    ∷ text "\n"
    ∷ []

abbrev pub described : Proc → KernelFlags → ℕ → Run {0} Unit
described proc kpf val =
    if Entry.has_pfn val
    then frame_line proc kpf (Entry.check_bit val Entry.is_file_bit) (Entry.get_pfn val)
        (Entry.check_bit val Entry.soft_dirty_bit) (Entry.check_bit val Entry.exclusive_mapped_bit)
    else if Entry.check_bit val Entry.swapped_bit
    then say (swapped_line val)
    else say (text "<not present>\n" ∷ [])

has-check_bit : (val bit : ℕ) → bit < 64 → has val (2 ^ bit) ≡ Entry.check_bit val bit
has-check_bit val bit h =
    ground (arith, check_bit-eq val bit h, bit_and-two_pow bit val, two_pow_pos bit)

say-if : (b : Bool) (x y : Output) → say (if b then x else y) ≡ (if b then say x else say y)
say-if true x y = refl
say-if false x y = refl

describe_swapped-same : (val : ℕ) → describe_swapped val ≡ swapped_line val
unfolding describe_swapped
describe_swapped-same val =
    ap₂
      (λ (type offset : ℕ).
        text "swapped: type=" ∷ dec type ∷ text ", offset=" ∷ dec offset ∷ text "\n" ∷ [])
      (omega (arith, bit_and-ones 5 val, swap_fields val))
      (omega (arith, bit_and-ones 55 val, swap_fields val))

module _ (proc : Proc) (kpf : KernelFlags) (val : ℕ)
    (either : (Entry.check_bit val Entry.swapped_bit && Entry.check_bit val Entry.present_bit)
      ≡ false) where
  frame :
      Entry.check_bit val Entry.present_bit ≡ true
      → (Entry.has_pfn val ≡ true) × (bit_and val pagemap_pfn_mask ≡ Entry.get_pfn val)
  unfolding Entry.has_pfn Entry.get_pfn
  frame present = (ground (arith, present, either), ground (arith, present, either))

  no_frame : Entry.check_bit val Entry.present_bit ≡ false → Entry.has_pfn val ≡ false
  unfolding Entry.has_pfn
  no_frame absent = ground (arith, absent)

  describe_entry-described : describe_entry proc kpf val ≡ described proc kpf val
  unfolding describe_entry
  describe_entry-described = elim (Bool-cases (Entry.check_bit val Entry.present_bit)) [
    | inl present ↦
        rw
          (
            describe_entry,
            has-check_bit val 63 (omega arith),
            has-check_bit val 61 (omega arith),
            has-check_bit val 55 (omega arith),
            has-check_bit val 56 (omega arith),
            present,
            (frame present).0,
            (frame present).1,
          )
          refl
    | inr absent ↦
        rw
          (
            describe_entry,
            has-check_bit val 63 (omega arith),
            has-check_bit val 62 (omega arith),
            absent,
            no_frame absent,
            describe_swapped-same val,
          )
          (say-if (Entry.check_bit val Entry.swapped_bit) (swapped_line val)
            (text "<not present>\n" ∷ []))
  ]

-- describe_addr and pagestat take the same from an entry: if the entry of the page can be read, and does
-- not say both that the page is present and that it is swapped, describe_addr prints the address and goes
-- on with the frame number, the bits, or the swap type and offset that the functions of pagestat find
-- in it; a page has a frame for both or for neither.
pub describe_addr-described :
    (proc : Proc) (kpf : KernelFlags) (ptr val : ℕ)
    → read_pagemap proc ptr ≡ print [] val
    → (Entry.check_bit val Entry.swapped_bit && Entry.check_bit val Entry.present_bit) ≡ false
    → describe_addr proc kpf ptr
      ≡ then_run (say (pointer ptr ∷ text ": " ∷ [])) (λ done. described proc kpf val)
unfolding describe_addr
describe_addr-described proc kpf ptr val e either =
    ap
      (λ (r : Run ℕ). then_run r (λ pagemap.
        then_run (say (pointer ptr ∷ text ": " ∷ [])) (λ done. describe_entry proc kpf pagemap)))
      e
    ∙ ap (λ (r : Run {0} Unit). then_run (say (pointer ptr ∷ text ": " ∷ [])) (λ done. r))
        (describe_entry-described proc kpf val either)
