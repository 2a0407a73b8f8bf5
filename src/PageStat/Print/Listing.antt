-- ===== src/PageStat/Print/Listing.antt =====
-- The loop over the pages of a mapping, and the whole listing.
use native.Mathlib.Nat.{add-suc, add-zero, suc-add}
use native.Mathlib.Numerals.{add-one}
use mathlib.Core.List.{append_assoc}
use mathlib.Core.Path.{subst}
use mm_exper.Base.{ℕ, zero, suc, ◌+◌, ◌-◌, ◌^◌, ◌<◌, ◌≡◌, refl, sym, ap, ◌∙◌, arith}
use mm_exper.Base.{true, false, Bool-cases, inl, inr}
use mm_exper.Base.{List, [], ◌∷◌, ◌++◌, get_or}
use mm_exper.Base.Word.{invalid_value, add64}
use mm_exper.Base.Proc.{Proc}
use mm_exper.PageStat.Data.{PageStat}
use mm_exper.PageStat.PageTable.{count_virt_pages}
use mm_exper.PageStat.Print.Cover.{
  page_addr, Covers, Covers-append, IsSeen, flush-Covers, flags_ne_invalid,
}
use mm_exper.PageStat.Print.{
  Seen, Line, mapping, print_abbrev, is_new, see, print_mapping, print_mapping_terminate,
  print_pages, print_all_pages,
}

-- Nothing is pending: `print_abbrev` puts out nothing.
abbrev pub IsFresh : Seen → Type 0
IsFresh s = (s.last_map ≡ invalid_value) × (s.count ≡ 0)

module _ (proc : Proc) (ps : PageStat) where
  abbrev at : ℕ → ℕ
  at = page_addr ps.pagemaps ps.vma_start proc.page_size

  abbrev pub entry : ℕ → ℕ
  entry i = get_or ps.pagemaps i 0

  abbrev see_at : ℕ → ℕ → Seen
  see_at i count = see (at i) i (entry i) count

  abbrev Covered : ℕ → List Line → ℕ → Type 0
  Covered = Covers ps.pagemaps ps.vma_start proc.page_size

  at-suc : (i : ℕ) → add64 (at i) proc.page_size ≡ at (suc i)
  at-suc i = omega arith

  pub print_mapping-new :
      (addr i : ℕ) (s : Seen)
      → is_new s (entry i) ≡ true
      → print_mapping addr ps i true s
        ≡ (print_abbrev s ++ mapping addr i (entry i) ∷ [], see addr i (entry i) 0)
  unfolding print_mapping
  print_mapping-new addr i s e = rw (e, print_mapping) refl

  print_mapping-same :
      (addr i : ℕ) (s : Seen)
      → is_new s (entry i) ≡ false
      → print_mapping addr ps i true s ≡ ([], see addr i (entry i) s.count)
  unfolding print_mapping
  print_mapping-same addr i s e = rw (e, print_mapping) refl

  -- The rest of the listing from page `i` on, the final flush included.
  abbrev pub listing_at : ℕ → ℕ → ℕ → Seen → List Line
  listing_at n i addr s =
      (print_pages proc ps n i addr s).0 ++ print_abbrev (print_pages proc ps n i addr s).1

  abbrev listing : ℕ → ℕ → Seen → List Line
  listing n i s = listing_at n i (at i) s

  pub listing_at-suc :
      (n i addr : ℕ) (s t : Seen) (lines : List Line)
      → print_mapping addr ps i true s ≡ (lines, t)
      → listing_at (suc n) i addr s ≡ lines ++ listing_at n (i + 1) (add64 addr proc.page_size) t
  unfolding print_pages
  listing_at-suc n i addr s t lines e =
      append_assoc (print_mapping addr ps i true s).0 _ _
      ∙ ap (λ (p : List Line × Seen). p.0 ++ listing_at n (i + 1) (add64 addr proc.page_size) p.1) e

  listing-suc :
      (n i : ℕ) (s t : Seen) (lines : List Line)
      → print_mapping (at i) ps i true s ≡ (lines, t)
      → listing (suc n) i s ≡ lines ++ listing n (suc i) t
  listing-suc n i s t lines e =
      listing_at-suc n i (at i) s t lines e
      ∙ ap (λ (k : ℕ). lines ++ listing_at n k (add64 (at i) proc.page_size) t) (add-one i)
      ∙ ap (λ (a : ℕ). lines ++ listing_at n (suc i) a t) (at-suc i)

  module _ (in_range : (i : ℕ) → entry i < 2 ^ 64) where
    -- After an entry that starts a group, and after one that goes on with it.
    see-IsSeen-new : (i : ℕ) → IsSeen ps.pagemaps ps.vma_start proc.page_size i (see_at i 0)
    see-IsSeen-new i = record {
      map_is = refl;
      pfn_is = refl;
      addr_is = refl;
      index_is = refl;
      counted = omega arith;
      fits = omega arith;
    }

    see-IsSeen-same :
        (i : ℕ) (s : Seen)
        → IsSeen ps.pagemaps ps.vma_start proc.page_size i s
        → IsSeen ps.pagemaps ps.vma_start proc.page_size (suc i) (see_at (suc i) s.count)
    see-IsSeen-same i s h = record {
      map_is = refl;
      pfn_is = refl;
      addr_is = refl;
      index_is = refl;
      counted = omega arith;
      fits = omega (arith, h.fits);
    }

    -- One page, then what covers the pages behind it.
    cover-new :
        (n i : ℕ) (s : Seen)
        → IsSeen ps.pagemaps ps.vma_start proc.page_size i s
        → is_new s (entry (suc i)) ≡ true
        → Covered (suc i + 1) (listing n (suc (suc i)) (see_at (suc i) 0)) (suc (suc i) + n)
        → Covered (suc i + 1 - s.count) (listing (suc n) (suc i) s) (suc (suc i) + n)
    cover-new n i s h new rest =
        let line = mapping (at (suc i)) (suc i) (entry (suc i)) in
        let flushed = flush-Covers ps.pagemaps ps.vma_start proc.page_size in_range i s h in
        let this : Covered (suc i) (line ∷ []) (suc i + 1) =
          (refl, refl, (λ p. refl, refl), refl) in
        let both =
          Covers-append ps.pagemaps ps.vma_start proc.page_size (print_abbrev s) (line ∷ []) _
            (suc i) (suc i + 1) flushed this in
        subst (λ ls. Covered (suc i + 1 - s.count) ls (suc (suc i) + n))
          (sym (listing-suc n (suc i) s _ _ (print_mapping-new (at (suc i)) (suc i) s new)))
          (Covers-append ps.pagemaps ps.vma_start proc.page_size (print_abbrev s ++ line ∷ []) _ _
            (suc i + 1) (suc (suc i) + n) both rest)

    cover-same :
        (n i : ℕ) (s : Seen)
        → is_new s (entry (suc i)) ≡ false
        → Covered
            (suc i + 1 - s.count)
            (listing n (suc (suc i)) (see_at (suc i) s.count))
            (suc (suc i) + n)
        → Covered (suc i + 1 - s.count) (listing (suc n) (suc i) s) (suc (suc i) + n)
    cover-same n i s same rest =
        subst (λ ls. Covered (suc i + 1 - s.count) ls (suc (suc i) + n))
          (sym (listing-suc n (suc i) s _ [] (print_mapping-same (at (suc i)) (suc i) s same))) rest

    listing-Covers :
        (n i : ℕ) (s : Seen)
        → IsSeen ps.pagemaps ps.vma_start proc.page_size i s
        → Covered (suc i + 1 - s.count) (listing n (suc i) s) (suc i + n)
    listing-Covers zero i s h =
        unfold print_pages in
        rw (add-zero (suc i)) (flush-Covers ps.pagemaps ps.vma_start proc.page_size in_range i s h)
    listing-Covers (suc n) i s h =
        rw (add-suc (suc i) n, ← suc-add (suc i) n)
          (elim (Bool-cases (is_new s (entry (suc i)))) [
            | inl new ↦ cover-new n i s h new (
                subst
                  (λ a. Covered a (listing n (suc (suc i)) (see_at (suc i) 0)) (suc (suc i) + n))
                  (next i) (listing-Covers n (suc i) (see_at (suc i) 0) (see-IsSeen-new (suc i))))
            | inr same ↦ cover-same n i s same (
                subst
                  (λ a.
                    Covered a (listing n (suc (suc i)) (see_at (suc i) s.count)) (suc (suc i) + n))
                  (kept i s)
                  (listing-Covers n (suc i) (see_at (suc i) s.count) (see-IsSeen-same i s h)))
          ])
      where
        next : (i : ℕ) → suc (suc i) + 1 - (0 + 1) ≡ suc i + 1
        next i = omega arith

        kept : (i : ℕ) (s : Seen) → suc (suc i) + 1 - (s.count + 1) ≡ suc i + 1 - s.count
        kept i s = omega arith

    -- The state that the program starts with, and that a listing leaves.
    module _ (s : Seen) (f : IsFresh s) where
      is_new_first : is_new s (entry 0) ≡ true
      is_new_first =
          unfold is_new in
          ground (arith, f.0, flags_ne_invalid ps.pagemaps ps.vma_start proc.page_size in_range 0)

      no_flush : print_abbrev s ≡ []
      no_flush = unfold print_abbrev in ground (arith, f.0)

      from_fresh : (n : ℕ) → Covered 0 (listing n 0 s) n
      from_fresh zero = unfold print_pages in subst (λ ls. Covered 0 ls 0) (sym no_flush) refl
      from_fresh (suc n) =
          let line = mapping (at 0) 0 (entry 0) in
          let rest : Covered 1 (listing n 1 (see_at 0 0)) (suc n) =
            subst (λ k. Covered 1 (listing n 1 (see_at 0 0)) k) (last n)
              (listing-Covers n 0 (see_at 0 0) (see-IsSeen-new 0)) in
          subst (λ ls. Covered 0 ls (suc n)) (sym (first n)) (refl, refl, (λ p. refl, refl), rest)
        where
          last : (n : ℕ) → suc 0 + n ≡ suc n
          last n = omega arith

          first :
              (n : ℕ) → listing (suc n) 0 s ≡ mapping (at 0) 0 (entry 0) ∷ listing n 1 (see_at 0 0)
          first n =
              listing-suc n 0 s _ _ (print_mapping-new (at 0) 0 s is_new_first)
              ∙ ap
                  (λ (ls : List Line).
                    (ls ++ mapping (at 0) 0 (entry 0) ∷ []) ++ listing n 1 (see_at 0 0))
                  no_flush

-- From a state in which nothing is pending, on 64-bit entries and a 64-bit address: the listing of
-- a mapping's pages covers all of them in order, whatever repetitions it leaves out, and nothing
-- is pending behind it.
pub print_all_pages-Covers :
    (proc : Proc) (ps : PageStat) (s : Seen)
    → ((i : ℕ) → get_or ps.pagemaps i 0 < 2 ^ 64)
    → ps.vma_start < 2 ^ 64
    → IsFresh s
    → Covers ps.pagemaps ps.vma_start proc.page_size 0
        (print_all_pages proc ps s).0
        (count_virt_pages proc ps)
      × IsFresh (print_all_pages proc ps s).1
unfolding print_all_pages print_mapping_terminate
print_all_pages-Covers proc ps s in_range low f = (
  subst
      (λ a.
        Covers ps.pagemaps ps.vma_start proc.page_size 0
          (listing_at proc ps (count_virt_pages proc ps) 0 a s) (count_virt_pages proc ps))
      (omega arith) (from_fresh proc ps in_range s f (count_virt_pages proc ps)),
  (refl, refl),
)
