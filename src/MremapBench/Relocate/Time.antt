-- ===== src/MremapBench/Relocate/Time.antt =====
-- The time of a run in which nothing fails.
use mm_exper.Base.{
  ℕ, zero, suc, ◌+◌, ◌-◌, ◌*◌, ◌^◌, ◌≤◌, ◌<◌, ◌≡◌, refl, ap, ◌∙◌, sym, arith, Bool, true, false,
}
use mm_exper.Base.{some, Bool-cases, inl, inr}
use mm_exper.MremapBench.{mmap_aligned}
use mm_exper.MremapBench.Aligned.{mmap_aligned_lem}
use mm_exper.MremapBench.Relocate.{
  Region, source, target, Reloc, Timespec, Kernel, timed, map_and_populate_region, populated,
  reserve_region, check_loop, check_move, after_move, with_regions, with_source, time_relocate,
}
use mm_exper.MremapBench.Relocate.Laws.{Fits, align_of}

-- The bytes that `check_move` looks at are those that were populated.
check_loop-true :
    (dst : ℕ → ℕ) (left i : ℕ)
    → ((j : ℕ) → j < i + left → dst j ≡ b'x')
    → check_loop dst left i ≡ true
unfolding check_loop
check_loop-true dst zero i h = refl
check_loop-true dst (suc left) i h =
    ground
      (arith, h i (omega arith), check_loop-true dst left (suc i) (λ j l. h j (omega (arith, l))))

-- Each call succeeds, and the move keeps the bytes.
pub record IsWorking (kernel : Kernel) (reloc : Reloc) : Type 0 where
  pub maps : (r : Region) → (p : ℕ) × (kernel.mmap r ≡ some p)
  pub maps_fixed : (r : Region) → kernel.map_fixed r ≡ true
  pub advises : kernel.advise_nohuge ≡ true
  pub unmaps : kernel.munmap ≡ true
  pub moves : kernel.mremap reloc.relocate ≡ true
  pub keeps : (f : ℕ → ℕ) (i : ℕ) → i < reloc.old_len → kernel.moved f i ≡ f i
  pub reclaims : kernel.advise_pageout ≡ true

-- A time of the clock, which is monotonic, in nanoseconds.
abbrev pub in_ns : Timespec → ℕ
in_ns t = t.tv_sec * 10 ^ 9 + t.tv_nsec

aligned_ptr :
    (p len k : ℕ) (aligned : Bool) (align : ℕ)
    → k < 64
    → align ≡ align_of aligned k
    → p + len + 2 * align < 2 ^ 64
    → (q : ℕ) × ((mmap_aligned (some p) true len align).ptr ≡ some q)
unfolding mmap_aligned
aligned_ptr p len k false align small at room = (p, rw at refl)
aligned_ptr p len k true align small at room =
    let (q, after, inside, mult, eq) =
      mmap_aligned_lem p len k small (omega (arith, sym at)) true in
    (q, rw at (ap (λ m. m.ptr) eq))

module _ (kernel : Kernel) (reloc : Reloc) (k : ℕ) (aligned : Bool) (small : k < 64)
    (at : reloc.align ≡ align_of aligned k) (w : IsWorking kernel reloc) where
  source_ptr :
      Fits (kernel.mmap source) reloc.old_len reloc.align
      → (q : ℕ) × ((map_and_populate_region kernel reloc).ptr ≡ some q)
  unfolding map_and_populate_region
  source_ptr fits =
      let (p, e) = w.maps source in
      let (q, f) = aligned_ptr p reloc.old_len k aligned reloc.align small at (fits p e) in
      (
        q,
        elim (Bool-cases reloc.nohuge) [
          | inl h ↦ rw (e, w.maps_fixed source, f, w.advises, h) refl
          | inr h ↦ rw (e, w.maps_fixed source, f, w.advises, h) refl
        ],
      )

  target_ptr :
      Fits (kernel.mmap target) reloc.new_len reloc.align
      → (q : ℕ) × ((reserve_region kernel reloc).ptr ≡ some q)
  unfolding reserve_region
  target_ptr fits =
      let (p, e) = w.maps target in
      let (q, f) = aligned_ptr p reloc.new_len k aligned reloc.align small at (fits p e) in
      (q, rw (e, w.maps_fixed target, f, w.unmaps) refl)

  moved_bytes :
      reloc.pop_len ≤ reloc.old_len → check_move reloc (kernel.moved (populated reloc)) ≡ true
  unfolding check_move
  moved_bytes le =
      check_loop-true (kernel.moved (populated reloc)) reloc.pop_len 0
        (λ j l. w.keeps (populated reloc) j (omega (arith, l)) ∙ filled j (omega (arith, l)))
    where
      filled : (j : ℕ) → j < reloc.pop_len → populated reloc j ≡ b'x'
      filled j l = ground arith

  -- Where each call succeeds and the move keeps the bytes, at most the bytes of the source being populated:
  -- time_relocate succeeds, and its time is the nanoseconds from the first reading of the clock to the
  -- second, if these do not exceed 64 bits and the second is not earlier. The source and the target
  -- are as in the theorem above.
  pub time_relocate-timed :
      Fits (kernel.mmap source) reloc.old_len reloc.align
      → Fits (kernel.mmap target) reloc.new_len reloc.align
      → reloc.pop_len ≤ reloc.old_len
      → in_ns kernel.t_start ≤ in_ns kernel.t_end
      → in_ns kernel.t_end < 2 ^ 64
      → (time_relocate kernel reloc).outcome ≡ timed (in_ns kernel.t_end - in_ns kernel.t_start)
  unfolding time_relocate with_source with_regions after_move
  time_relocate-timed fits fits' le before small_time =
      let (q, e) = source_ptr fits in
      let (d, f) = target_ptr fits' in
      rw (e, with_source, f, with_regions, w.moves, after_move, moved_bytes le, w.reclaims)
        (ap timed (omega arith))
