-- ===== src/Procmap/Query.antt =====
-- random/procmap.c: what the VMA at the moved page says of the merge.
pub mod Laws
use mm_exper.Base.{ℕ, ◌+◌, ◌*◌, Bool, ◌==◌, leb, if◌then◌else◌, List, [], ◌∷◌}
use mm_exper.Base.Word.{u64, add64, sub64}
use mm_exper.Base.Output.{Output, text, str}
use mm_exper.Procmap.Case.{Config, print_state}

-- `enum query_result`.
pub data QueryResult : Type 0 where
  merge_unknown : QueryResult
  no_merge : QueryResult
  merge_0_1 : QueryResult
  merge_1_2 : QueryResult
  merge_all : QueryResult

-- `query_ptr` behind the query, which gave `start` and `end`.
unfoldable pub query_ptr : ℕ → ℕ → ℕ → ℕ → QueryResult
query_ptr page_size ptr start end =
    let len = sub64 end start in
    if leb len page_size
    then no_merge
    else if len == u64 (3 * page_size)
    then merge_all
    else if start == ptr
    then merge_0_1
    else if start == add64 ptr page_size
    then merge_1_2
    else merge_unknown

abbrev result_text : QueryResult → Output
result_text merge_unknown = text "???\n" ∷ []
result_text no_merge = text "NO MERGE\n" ∷ []
result_text merge_0_1 = text "MERGE 0,1\n" ∷ []
result_text merge_1_2 = text "MERGE 1,2\n" ∷ []
result_text merge_all = text "MERGE 0,1,2\n" ∷ []

unfoldable pub print_query_result : Config → QueryResult → Output
unfolding print_state
print_query_result conf res = str (print_state conf) ∷ text ": " ∷ result_text res
