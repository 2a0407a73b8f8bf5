-- ===== src/MremapBench/Runs.antt =====
-- The runs whose times time_move adds up.
use mm_exper.Base.{ℕ, zero, suc, ◌+◌, Bool}
use mm_exper.Base.{List, [], ◌∷◌, ◌++◌}
use mm_exper.MremapBench.{Round, page_round, megabyte_round, Totals, time_of, add_run}

-- `n` rounds from `count` pages on, and from `count` megabytes on, each hundredth.
abbrev pub page_rounds : ℕ → ℕ → List Round
page_rounds zero count = []
page_rounds (suc n) count = page_round count ∷ page_rounds n (count + 1)

abbrev pub megabyte_rounds : ℕ → ℕ → List Round
megabyte_rounds zero count = []
megabyte_rounds (suc n) count = megabyte_round count ∷ megabyte_rounds n (count + 100)

-- The rounds of 1 to 511 pages, and 1, 101, ..., 901 megabytes.
unfoldable pub all_rounds : List Round
all_rounds = page_rounds 511 1 ++ megabyte_rounds 10 1

module _ (elapsed : Round → Bool → ℕ → ℕ → ℕ) (pop_len : ℕ → ℕ) (align : Bool) where
  runs : List Round → Totals → Totals
  runs [] t = t
  runs (r ∷ rounds) t = runs rounds (add_run elapsed pop_len align r t)

  -- The times of all runs of the rounds, with relocation or without.
  abbrev pub total : Bool → List Round → ℕ
  total relocate [] = 0
  total relocate (r ∷ rounds) = time_of elapsed pop_len align relocate r + total relocate rounds
