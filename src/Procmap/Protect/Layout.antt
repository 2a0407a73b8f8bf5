-- ===== src/Procmap/Protect/Layout.antt =====
-- Which pages `do_mremap_mprotect` maps and unmaps.
use mm_exper.Base.{ℕ, ◌+◌, ◌-◌, ◌≡◌, arith, Bool, true, ◌&&◌, ◌||◌, ltb, leb}
use mm_exper.Base.{if◌then◌else◌, List, [], ◌∷◌, ◌++◌}
use mm_exper.Procmap.Protect.{
  Call, reserve, munmap, mmap_fixed, write, mprotect, mremap, protect_calls, cleanup_calls,
}

-- What a page is: not mapped, mapped without access, or a page of the program, which is writable or not,
-- by the place that it was mapped at.
pub data Page : Type 0 where
  unmapped no_access : Page
  page : Bool → ℕ → Page

abbrev pub Layout : Type 0
Layout = ℕ → Page

abbrev in_range : ℕ → ℕ → ℕ → Bool
in_range off n i = leb off i && ltb i (off + n)

-- `mprotect` of a page that is mapped.
abbrev protect : Bool → Page → Page
protect w (page v place) = page w place
protect w p = p

abbrev after_call : Call → Layout → Layout
after_call (reserve off n) l i = if in_range off n i then no_access else l i
after_call (munmap off n) l i = if in_range off n i then unmapped else l i
after_call (mmap_fixed off n) l i = if in_range off n i then page true i else l i
after_call (write off) l i = l i
after_call (mprotect off n w) l i = if in_range off n i then protect w (l i) else l i
after_call (mremap src dst n relocate) l i =
    if in_range dst n i then l (src + (i - dst)) else if in_range src n i then unmapped else l i

abbrev pub after_calls : List Call → Layout → Layout
after_calls [] l = l
after_calls (c ∷ cs) l = after_calls cs (after_call c l)

-- The pages in front of the query: five, and fifteen in a row, the last five of them moved, of the
-- hundred that were reserved.
abbrev pub fifteen_in_a_row : Layout → Layout
fifteen_in_a_row l i =
    if ltb i 5 || (leb 50 i && ltb i 60)
    then page true i
    else if leb 60 i && ltb i 65
    then page true (i - 55)
    else if ltb i 100
    then unmapped
    else l i

-- For each layout of the pages around the range that the kernel gives: at the query the moved pages
-- lie behind those that were protected, each in its order and all writable. Then the calls unmap the pages that
-- were mapped and nothing outside the hundred that were reserved. But of any layout, they also unmap
-- the five pages behind the moved ones, since the last `munmap` is of ten pages where five were moved.
pub protect_calls-in_a_row :
    (relocate_anon : Bool) (l : Layout) (i : ℕ)
    → (after_calls (protect_calls relocate_anon) l i ≡ fifteen_in_a_row l i)
      × (after_calls (protect_calls relocate_anon ++ cleanup_calls) l i
          ≡ (if ltb i 100 then unmapped else l i))
      × (after_calls cleanup_calls l i
          ≡ (if ltb i 5 || (leb 50 i && ltb i 65) || (leb 65 i && ltb i 70) then unmapped else l i))
unfolding protect_calls cleanup_calls
protect_calls-in_a_row relocate_anon l i = (ground arith, ground arith, ground arith)
