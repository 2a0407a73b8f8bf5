-- ===== src/Tests/MergeTests.antt =====
-- random/merge_cases.c: a run that ends at its tenth call.
use mm_exper.Base.{◌≡◌, refl, true, ltb, none, [], ◌∷◌, length}
use mm_exper.MergeCases.{reserved, main_calls, run}
use mm_exper.MergeCases.Documented.{areas, comments, is_documented, main_calls-documented}

ended : length (run (λ i. ltb i 9) 0 main_calls) ≡ 9
unfolding run main_calls
ended = refl

main_calls-documented_example :
    is_documented (run (λ i. ltb i 9) 0 main_calls) none (areas [] (reserved ∷ [])) comments ≡ true
main_calls-documented_example = main_calls-documented [] (reserved ∷ []) (λ i. ltb i 9)
