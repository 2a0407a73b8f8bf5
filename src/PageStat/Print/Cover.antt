-- ===== src/PageStat/Print/Cover.antt =====
-- The abbreviated listing stands for every page: its lines cover the pages in order, each at its
-- own address.
use mathlib.Core.Path.{subst}
use mm_exper.Base.{
  ℕ, suc, ◌+◌, ◌-◌, ◌*◌, ◌/◌, ◌%◌, ◌^◌, ◌≤◌, ◌<◌, ◌≡◌, ◌≢◌, refl, sym, ap, ◌∙◌, arith,
}
use mm_exper.Base.{true, false, ◌==◌, ltb, Bool-cases, inl, inr, if◌then◌else◌}
use mm_exper.Base.{List, [], ◌∷◌, ◌++◌, get_or, bit_and, bit_or}
use mm_exper.Base.Masks.{bit_or-fields}
use mm_exper.Base.Word.{bit_not, invalid_value, u64}
use mm_exper.PageStat.Entry.{pfn_mask, get_pfn, has_pfn}
use mm_exper.PageStat.Entry.Laws.{and-not_pfn_mask, get_pfn_lem}
use mm_exper.PageStat.Print.{Seen, Line, mapping, repeats, print_abbrev}

-- The value printed for a page: the entry itself where it has a frame, and always the entry's flags.
abbrev pub Shows : ℕ → ℕ → Type 0
Shows entry val = (has_pfn entry ≡ true → val ≡ entry) × (val / 2 ^ 55 ≡ entry / 2 ^ 55)

-- An entry put together again from its flags and its frame.
abbrev pub rebuilt : ℕ → ℕ
rebuilt entry =
    if get_pfn entry == invalid_value
    then bit_and entry (bit_not pfn_mask)
    else bit_or (bit_and entry (bit_not pfn_mask)) (get_pfn entry)

rebuilt-frame : (e : ℕ) → e < 2 ^ 64 → has_pfn e ≡ true → rebuilt e ≡ e
rebuilt-frame e h p =
    rw
      (
        (get_pfn_lem e).1 p,
        and-not_pfn_mask e h,
        bit_or-fields 55 (e / 2 ^ 55) (e % 2 ^ 55) (omega arith),
      )
      (ground arith)

rebuilt-no_frame : (e : ℕ) → e < 2 ^ 64 → has_pfn e ≡ false → rebuilt e ≡ e / 2 ^ 55 * 2 ^ 55
rebuilt-no_frame e h n = rw ((get_pfn_lem e).2.1 n, and-not_pfn_mask e h) refl

rebuilt-Shows : (e : ℕ) → e < 2 ^ 64 → Shows e (rebuilt e)
rebuilt-Shows e h = elim (Bool-cases (has_pfn e)) [
  | inl p ↦ (λ q. rebuilt-frame e h p, ap (λ (t : ℕ). t / 2 ^ 55) (rebuilt-frame e h p))
  | inr n ↦ (λ q. cc, rw (rebuilt-no_frame e h n) (omega arith))
]

module _ (entries : List ℕ) (start page : ℕ) where
  -- The address of page `i`.
  abbrev pub page_addr : ℕ → ℕ
  page_addr i = u64 (start + i * page)

  abbrev pub entry_at : ℕ → ℕ
  entry_at i = get_or entries i 0

  -- The lines stand for the pages from `i` up to `j`, in order: a mapping line for the next page, at
  -- its index and address, with a value that shows its entry; a repetition line for the next `n`
  -- pages, at the address of the last of them.
  abbrev pub Covers : ℕ → List Line → ℕ → Type 0
  Covers i [] j = i ≡ j
  Covers i (mapping addr index val ∷ lines) j =
      (index ≡ i) × (addr ≡ page_addr i) × Shows (entry_at i) val × Covers (i + 1) lines j
  Covers i (repeats addr n ∷ lines) j =
      (0 < n) × (addr ≡ page_addr (i + n - 1)) × Covers (i + n) lines j

  pub Covers-append :
      (xs ys : List Line) (i j k : ℕ) → Covers i xs j → Covers j ys k → Covers i (xs ++ ys) k
  Covers-append [] ys i j k p q = subst (λ t. Covers t ys k) (sym p) q
  Covers-append (mapping a m v ∷ xs) ys i j k p q =
      (p.0, p.1, p.2, Covers-append xs ys (i + 1) j k p.3 q)
  Covers-append (repeats a n ∷ xs) ys i j k p q = (p.0, p.1, Covers-append xs ys (i + n) j k p.2 q)

  -- The static variables after the pages below `suc i`, the last `s.count` of which are one group
  -- whose first page has been printed.
  pub record IsSeen (i : ℕ) (s : Seen) : Type 0 where
    pub map_is : s.last_map ≡ bit_and (entry_at i) (bit_not pfn_mask)
    pub pfn_is : s.last_pfn ≡ get_pfn (entry_at i)
    pub addr_is : s.last_addr ≡ page_addr i
    pub index_is : s.last_index ≡ i
    pub counted : 0 < s.count
    pub fits : s.count ≤ suc i

  -- The first page that is not yet covered by a line.
  abbrev pub pending : ℕ → Seen → ℕ
  pending i s = suc i + 1 - s.count

  module _ (in_range : (i : ℕ) → entry_at i < 2 ^ 64) where
    pub flags_ne_invalid : (i : ℕ) → bit_and (entry_at i) (bit_not pfn_mask) ≢ invalid_value
    flags_ne_invalid i e = absurd (omega (arith, and-not_pfn_mask (entry_at i) (in_range i), e))

    pub flush-Covers :
        (i : ℕ) (s : Seen) → IsSeen i s → Covers (pending i s) (print_abbrev s) (suc i)
    unfolding print_abbrev
    flush-Covers i s h = rw (valid h) (elim (Bool-cases (ltb 2 s.count)) [
      | inl many ↦ rw many (
        ground (arith, h.counted),
        h.addr_is ∙ ap page_addr (last_of many h.fits),
        end_of many h.fits,
      )
      | inr few ↦ rw few (elim (Bool-cases (s.count == 2)) [
        | inl two ↦ rw two (
          h.index_is ∙ first_of_two two h.fits,
          h.addr_is ∙ ap page_addr (first_of_two two h.fits),
          shown two,
          end_of_two two h.fits,
        )
        | inr one ↦ rw one (end_of_one few one h.counted)
      ])
    ])
      where
        valid : IsSeen i s → (s.last_map == invalid_value) ≡ false
        valid h = ground (arith, h.map_is, flags_ne_invalid i)

        last_of : ltb 2 s.count ≡ true → s.count ≤ suc i → i ≡ pending i s + (s.count - 1) - 1
        last_of many f = ground arith

        end_of : ltb 2 s.count ≡ true → s.count ≤ suc i → pending i s + (s.count - 1) ≡ suc i
        end_of many f = ground arith

        first_of_two : (s.count == 2) ≡ true → s.count ≤ suc i → i ≡ pending i s
        first_of_two two f = ground arith

        end_of_two : (s.count == 2) ≡ true → s.count ≤ suc i → pending i s + 1 ≡ suc i
        end_of_two two f = ground arith

        end_of_one :
            ltb 2 s.count ≡ false → (s.count == 2) ≡ false → 0 < s.count → pending i s ≡ suc i
        end_of_one few one c = ground arith

        shown :
            (s.count == 2) ≡ true
            → Shows
                (entry_at (pending i s))
                (if s.last_pfn == invalid_value then s.last_map else bit_or s.last_map s.last_pfn)
        shown two =
            rw (h.pfn_is, h.map_is)
              (subst (λ k. Shows (entry_at k) (rebuilt (entry_at i))) (first_of_two two h.fits)
                (rebuilt-Shows (entry_at i) (in_range i)))
