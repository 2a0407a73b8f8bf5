-- ===== src/PageStat/Print/Swapped.antt =====
-- A pair of swapped pages in the abbreviated listing.
use mm_exper.Base.{ℕ, ◌/◌, ◌*◌, ◌^◌, ◌<◌, ◌≡◌, arith, true, false, [], ◌∷◌}
use mm_exper.Base.Word.{invalid_value}
use mm_exper.PageStat.Entry.{swapped_bit, check_bit, has_pfn, get_pfn, swap_type, swap_offset}
use mm_exper.PageStat.Entry.Laws.{check_bit-eq, and-not_pfn_mask, get_pfn_lem, swap_fields}
use mm_exper.PageStat.Print.{mapping, see, is_new, print_abbrev}

-- A swapped entry has no frame.
no_frame : (e : ℕ) → check_bit e swapped_bit ≡ true → get_pfn e ≡ invalid_value
no_frame e s = (get_pfn_lem e).2.1 (unfold has_pfn in ground (arith, s))

-- What stands for such an entry in `last_seen_map`.
flags_alone : ℕ → ℕ
flags_alone e = e / 2 ^ 55 * 2 ^ 55

flags_alone-swapped :
    (e : ℕ)
    → e < 2 ^ 64
    → check_bit e swapped_bit ≡ true
    → (check_bit (flags_alone e) swapped_bit ≡ true)
      × (swap_type (flags_alone e) ≡ 0)
      × (swap_offset (flags_alone e) ≡ 0)
unfolding flags_alone
flags_alone-swapped e h s = (
  ground (arith, check_bit-eq e 62 (omega arith), check_bit-eq (flags_alone e) 62 (omega arith), s),
  omega (arith, swap_fields (flags_alone e)),
  omega (arith, swap_fields (flags_alone e)),
)

-- Two swapped 64-bit entries with the same flags are one group, whatever their swap types and
-- offsets are; and the second is printed from its flags alone, with swap type and offset 0.
swapped_pair :
    (e e' addr addr' i i' : ℕ)
    → e < 2 ^ 64
    → e' < 2 ^ 64
    → check_bit e swapped_bit ≡ true
    → e / 2 ^ 55 ≡ e' / 2 ^ 55
    → (is_new (see addr i e 0) e' ≡ false)
      × ((val : ℕ) × (print_abbrev (see addr' i' e' 1) ≡ mapping addr' i' val ∷ [])
          × (check_bit val swapped_bit ≡ true)
          × (swap_type val ≡ 0)
          × (swap_offset val ≡ 0))
unfolding is_new print_abbrev flags_alone
swapped_pair e e' addr addr' i i' h h' s f = (
  ground (
    arith,
    no_frame e s,
    no_frame e' (swapped s f),
    and-not_pfn_mask e h,
    and-not_pfn_mask e' h',
    f,
  ),
  (
    flags_alone e',
    ground (arith, no_frame e' (swapped s f), and-not_pfn_mask e' h'),
    (flags_alone-swapped e' h' (swapped s f)).0,
    (flags_alone-swapped e' h' (swapped s f)).1,
    (flags_alone-swapped e' h' (swapped s f)).2,
  ),
)
  where
    swapped :
        check_bit e swapped_bit ≡ true → e / 2 ^ 55 ≡ e' / 2 ^ 55 → check_bit e' swapped_bit ≡ true
    swapped s f =
        ground (arith, check_bit-eq e 62 (omega arith), check_bit-eq e' 62 (omega arith), s, f)
