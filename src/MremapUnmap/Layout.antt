-- ===== src/MremapUnmap/Layout.antt =====
-- Where the moves leave the pages.
use mm_exper.Base.{ℕ, ◌+◌, ◌≡◌, refl, arith, Bool, true, false, ltb, if◌then◌else◌}
use mm_exper.Base.{[], get_or}
use mm_exper.Procmap.Protect.Layout.{Layout, unmapped, page, after_calls}
use mm_exper.MremapUnmap.{move_calls, do_move, all_flags, main_moves}

moved_back :
    (touch_a_first touch_a_afterwards touch_b : Bool) (l : Layout) (i : ℕ)
    → (after_calls (move_calls touch_a_first touch_a_afterwards touch_b) l i
        ≡ (if ltb i 10 then page true i else if ltb i 100 then unmapped else l i))
      × (after_calls (do_move touch_a_first touch_a_afterwards touch_b) l i
          ≡ (if ltb i 100 then unmapped else l i))
unfolding move_calls do_move
moved_back true true true l i = (ground arith, ground arith)
moved_back true true false l i = (ground arith, ground arith)
moved_back true false true l i = (ground arith, ground arith)
moved_back true false false l i = (ground arith, ground arith)
moved_back false true true l i = (ground arith, ground arith)
moved_back false true false l i = (ground arith, ground arith)
moved_back false false true l i = (ground arith, ground arith)
moved_back false false false l i = (ground arith, ground arith)

abbrev bit : Bool → ℕ → ℕ
bit b p = if b then p else 0

-- The round of a combination.
abbrev pub round : Bool → Bool → Bool → ℕ
round touch_a_first touch_a_afterwards touch_b =
    bit touch_a_first 1 + bit touch_a_afterwards 2 + bit touch_b 4

nth_round : (a b c : Bool) → get_or main_moves (round a b c) [] ≡ do_move a b c
unfolding main_moves all_flags
nth_round true true true = refl
nth_round true true false = refl
nth_round true false true = refl
nth_round true false false = refl
nth_round false true true = refl
nth_round false true false = refl
nth_round false false true = refl
nth_round false false false = refl

-- For each choice of the writes: it is that of one of the rounds of `main`; in each layout of the pages around
-- the range that the kernel gives, all ten pages are back in their places when they are listed, and
-- nothing is mapped elsewhere in the range; and behind the round all that was mapped is unmapped, and
-- nothing outside the hundred pages has changed.
pub do_move-back :
    (touch_a_first touch_a_afterwards touch_b : Bool) (l : Layout) (i : ℕ)
    → (get_or main_moves (round touch_a_first touch_a_afterwards touch_b) []
        ≡ do_move touch_a_first touch_a_afterwards touch_b)
      × (after_calls (move_calls touch_a_first touch_a_afterwards touch_b) l i
          ≡ (if ltb i 10 then page true i else if ltb i 100 then unmapped else l i))
      × (after_calls (do_move touch_a_first touch_a_afterwards touch_b) l i
          ≡ (if ltb i 100 then unmapped else l i))
do_move-back touch_a_first touch_a_afterwards touch_b l i =
    let (listed, left) = moved_back touch_a_first touch_a_afterwards touch_b l i in
    (nth_round touch_a_first touch_a_afterwards touch_b, listed, left)
