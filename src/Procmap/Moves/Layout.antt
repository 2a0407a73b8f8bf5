-- ===== src/Procmap/Moves/Layout.antt =====
-- Where the calls leave the three pages.
use mm_exper.Base.{ℕ, zero, suc, ◌≡◌, refl, Bool, true, false, ◌&&◌, not, if◌then◌else◌}
use mm_exper.Base.{Option, none, some, List, [], ◌∷◌, get_or}
use mm_exper.Procmap.Case.{
  VmaState, no_vma, empty_anon_vma, same_anon_vma, different_anon_vma, different_anon_vma2, Config,
  is_none, is_diff,
}
use mm_exper.Procmap.Moves.{
  Call, reserve, map_fixed, mremap_move, write, munmap, init_apart, init_mappings, try_calls,
}

-- What a reserved page holds: nothing, or a page of the first mapping, by where it was mapped.
pub data Page : Type 0 where
  vacant left_page primary_page right_page : Page
  further_page : ℕ → Page

abbrev pub Layout : Type 0
Layout = List Page

abbrev put : Layout → ℕ → Page → Layout
put [] i p = []
put (q ∷ l) zero p = p ∷ l
put (q ∷ l) (suc i) p = q ∷ put l i p

-- The page mapped at an offset, and `n` pages from an offset on.
abbrev page_at : ℕ → Page
page_at zero = left_page
page_at (suc zero) = primary_page
page_at (suc (suc zero)) = right_page
page_at (suc (suc (suc i))) = further_page i

abbrev map_pages : ℕ → ℕ → Layout → Layout
map_pages zero i l = l
map_pages (suc n) i l = map_pages n (suc i) (put l i (page_at i))

abbrev empty_layout : ℕ → Layout
empty_layout zero = []
empty_layout (suc n) = vacant ∷ empty_layout n

abbrev is_vacant : Page → Bool
is_vacant vacant = true
is_vacant _ = false

-- The pages in their order from an offset on; each leaves its place, and each must be mapped.
abbrev move_pages : ℕ → ℕ → ℕ → Layout → Option Layout
move_pages zero src tgt l = some l
move_pages (suc n) src tgt l =
    let rest =
      move_pages n (suc src) (suc tgt) (put (put l src vacant) tgt (get_or l src vacant)) in
    if is_vacant (get_or l src vacant) then none else rest

-- A call on a layout; `none` is a write to a page or a move of one that is not mapped.
abbrev run_call : Call → Layout → Option Layout
run_call (reserve n) l = some (empty_layout n)
run_call (map_fixed n) l = some (map_pages n 0 l)
run_call (mremap_move src tgt n relocate) l = move_pages n src tgt l
run_call (write i) l = if is_vacant (get_or l i vacant) then none else some l
run_call (munmap i) l = some (put l i vacant)

abbrev pub run_calls : List Call → Option Layout → Option Layout
run_calls [] o = o
run_calls (c ∷ cs) none = none
run_calls (c ∷ cs) (some l) = run_calls cs (run_call c l)

-- The layout that the case asks for: the page moved last in the middle, its neighbours at its sides.
abbrev pub asked : Config → Layout
asked conf =
    (if is_none conf 0 then vacant else left_page)
    ∷ primary_page
    ∷ (if is_none conf 1 then vacant else right_page)
    ∷ empty_layout 7

abbrev config : Bool → Bool → VmaState → VmaState → Config
config r b x y = record { left = x; right = y; primary_populated = b; relocate_anon = r }

Asked : Bool → Bool → VmaState → VmaState → Type 0
Asked r b x y = run_calls (try_calls (config r b x y)) (some []) ≡ some (asked (config r b x y))

each_state :
    (P : VmaState → Type 0)
    → P no_vma
    → P empty_anon_vma
    → P same_anon_vma
    → P different_anon_vma
    → P different_anon_vma2
    → (s : VmaState) → P s
each_state P a b c d e no_vma = a
each_state P a b c d e empty_anon_vma = b
each_state P a b c d e same_anon_vma = c
each_state P a b c d e different_anon_vma = d
each_state P a b c d e different_anon_vma2 = e

by_states : (r b : Bool) (x y : VmaState) → Asked r b x y
unfolding Asked try_calls init_mappings init_apart
by_states r false no_vma = each_state (Asked r false no_vma) refl refl refl refl refl
by_states r false empty_anon_vma =
    each_state (Asked r false empty_anon_vma) refl refl refl refl refl
by_states r false same_anon_vma = each_state (Asked r false same_anon_vma) refl refl refl refl refl
by_states r false different_anon_vma =
    each_state (Asked r false different_anon_vma) refl refl refl refl refl
by_states r false different_anon_vma2 =
    each_state (Asked r false different_anon_vma2) refl refl refl refl refl
by_states r true no_vma = each_state (Asked r true no_vma) refl refl refl refl refl
by_states r true empty_anon_vma = each_state (Asked r true empty_anon_vma) refl refl refl refl refl
by_states r true same_anon_vma = each_state (Asked r true same_anon_vma) refl refl refl refl refl
by_states r true different_anon_vma =
    each_state (Asked r true different_anon_vma) refl refl refl refl refl
by_states r true different_anon_vma2 =
    each_state (Asked r true different_anon_vma2) refl refl refl refl refl

-- In every case the calls write to and move mapped pages only, and the last move puts the page between its
-- neighbours, each at the place it was mapped at first; a neighbour is missing exactly where the state
-- asks for none.
pub try_calls-asked : (conf : Config) → run_calls (try_calls conf) (some []) ≡ some (asked conf)
unfolding Asked
try_calls-asked conf = by_states conf.relocate_anon conf.primary_populated conf.left conf.right

-- A case in which a state DIFFERENT_ANON_VMA, or the second of that kind, is replaced by
-- EMPTY_ANON_VMA unless both neighbours have one.
abbrev pub undistinguished : Config → Config
undistinguished conf = record conf {
  left = if is_diff conf 0 && not (is_diff conf 1) then empty_anon_vma else conf.left;
  right = if is_diff conf 1 && not (is_diff conf 0) then empty_anon_vma else conf.right;
}

Replaced : Bool → Bool → VmaState → VmaState → Type 0
Replaced r b x y = init_mappings (config r b x y) ≡ init_mappings (undistinguished (config r b x y))

same_calls : (r b : Bool) (x y : VmaState) → Replaced r b x y
unfolding Replaced init_mappings init_apart
same_calls r b no_vma = each_state (Replaced r b no_vma) refl refl refl refl refl
same_calls r b empty_anon_vma = each_state (Replaced r b empty_anon_vma) refl refl refl refl refl
same_calls r b same_anon_vma = each_state (Replaced r b same_anon_vma) refl refl refl refl refl
same_calls r b different_anon_vma =
    each_state (Replaced r b different_anon_vma) refl refl refl refl refl
same_calls r b different_anon_vma2 =
    each_state (Replaced r b different_anon_vma2) refl refl refl refl refl

-- The calls are the same with EMPTY_ANON_VMA in the place of a state DIFFERENT_ANON_VMA, or of the
-- second of that kind, unless both neighbours have one: alone, such a state has no effect.
pub init_mappings-undistinguished :
    (conf : Config) → init_mappings conf ≡ init_mappings (undistinguished conf)
unfolding Replaced
init_mappings-undistinguished conf =
    same_calls conf.relocate_anon conf.primary_populated conf.left conf.right
