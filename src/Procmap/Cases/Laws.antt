-- ===== src/Procmap/Cases/Laws.antt =====
-- Which cases `iterate_cases` tries.
use mm_exper.Base.{◌≡◌, refl, Bool, true, List, [], ◌∷◌, ◌++◌, map, ◌&&◌, if◌then◌else◌}
use mm_exper.Procmap.Case.{VmaState, no_vma, same_state, Config}
use mm_exper.Procmap.Moves.{Call}
use mm_exper.Procmap.Cases.{
  Kernel, Shown, is_bypassed, try_and_print, try_mremap, try_both, inner_loop, outer_loop,
  all_states, iterate_cases,
}

-- A pair of states with the primary VMA populated.
abbrev populated_case : Bool → VmaState → VmaState → Config
populated_case relocate x y = record {
  left = x;
  right = y;
  primary_populated = true;
  relocate_anon = relocate;
}

-- A pair twice, unless both neighbours are missing.
abbrev pub twice : Bool → VmaState → VmaState → List Config
twice relocate x y =
    if same_state x no_vma && same_state y no_vma
    then []
    else populated_case relocate x y ∷ populated_case relocate x y ∷ []

abbrev pub with_left : Bool → VmaState → List VmaState → List Config
with_left relocate x [] = []
with_left relocate x (y ∷ ys) = twice relocate x y ++ with_left relocate x ys

abbrev pub with_all : Bool → List VmaState → List VmaState → List Config
with_all relocate [] ys = []
with_all relocate (x ∷ xs) ys = with_left relocate x ys ++ with_all relocate xs ys

pub iterate_cases-twice :
    (kernel : Kernel) (conf : Config) (calls : List Call)
    → map
        (λ (s : Shown). s.conf)
        (iterate_cases kernel (record { conf = conf; calls = calls; shown = [] })).shown
      ≡ with_all conf.relocate_anon all_states all_states
unfolding iterate_cases outer_loop inner_loop try_both try_mremap is_bypassed try_and_print
iterate_cases-twice kernel conf calls = refl
