-- ===== src/Procmap/Cases.antt =====
-- random/procmap.c: the loops over the states. `iterate_cases` without the call of
-- `do_mremap_mprotect` at its end, which changes no case and is in Protect.
pub mod Laws
use mm_exper.Base.{ℕ, Bool, true, not, ◌&&◌, ◌||◌, if◌then◌else◌, List, [], ◌∷◌, ◌++◌}
use mm_exper.Procmap.Case.{
  VmaState, no_vma, empty_anon_vma, same_anon_vma, different_anon_vma, different_anon_vma2, Config,
  is_none, is_same, is_primary_pop,
}
use mm_exper.Procmap.Moves.{Call, try_calls}
use mm_exper.Procmap.Query.{QueryResult, no_merge, query_ptr}

-- The kernel: the page size, and what it answers after all the calls made so far: the address of the
-- last reservation, and the ends of the VMA at its page 1.
pub record Kernel : Type 0 where
  pub page_size : ℕ
  pub reserved : List Call → ℕ
  pub vma_start : List Call → ℕ
  pub vma_end : List Call → ℕ

-- A result that was printed, with its case.
pub record Shown : Type 0 where
  pub conf : Config
  pub res : QueryResult

-- `conf`, which the loops change in place, the calls made, and what was printed, in order.
pub record Progress : Type 0 where
  pub conf : Config
  pub calls : List Call
  pub shown : List Shown

-- The trivial cases of `try_mremap`, for which it sets `bypass`.
unfoldable pub is_bypassed : Config → Bool
is_bypassed conf =
    (is_none conf 0 && is_none conf 1)
    || (not (is_primary_pop conf) && (is_same conf 0 || is_same conf 1))

module _ (kernel : Kernel) where
  -- `__try_mremap`, its result printed.
  unfoldable pub try_and_print : Progress → Progress
  unfolding query_ptr try_calls
  try_and_print s =
      let calls = s.calls ++ try_calls s.conf in
      let res =
        query_ptr kernel.page_size (kernel.reserved calls) (kernel.vma_start calls)
          (kernel.vma_end calls) in
      record s { calls = calls; shown = s.shown ++ record { conf = s.conf; res = res } ∷ [] }

  -- `try_mremap`, and `print_query_result` unless it was bypassed.
  unfoldable pub try_mremap : Progress → Progress
  unfolding is_bypassed try_and_print
  try_mremap s = if is_bypassed s.conf then s else try_and_print s

  -- The body of the inner loop.
  unfoldable pub try_both : VmaState → VmaState → Progress → Progress
  unfolding try_mremap
  try_both i j s =
      let t = try_mremap (record s { conf = record s.conf { left = i; right = j } }) in
      try_mremap (record t { conf = record t.conf { primary_populated = true } })

  unfoldable pub inner_loop : VmaState → List VmaState → Progress → Progress
  unfolding try_both
  inner_loop i [] s = s
  inner_loop i (j ∷ js) s = inner_loop i js (try_both i j s)

  unfoldable pub outer_loop : List VmaState → List VmaState → Progress → Progress
  unfolding inner_loop
  outer_loop [] js s = s
  outer_loop (i ∷ is) js s = outer_loop is js (inner_loop i js s)

-- The states in the order of their numbers, up to NUM_VMA_STATES.
abbrev pub all_states : List VmaState
all_states = no_vma ∷ empty_anon_vma ∷ same_anon_vma ∷ different_anon_vma ∷ different_anon_vma2 ∷ []

unfoldable pub iterate_cases : Kernel → Progress → Progress
unfolding outer_loop
iterate_cases kernel = outer_loop kernel all_states all_states
