-- ===== src/Procmap/Program/Laws.antt =====
-- Which lines `main` prints.
use mm_exper.Base.{◌≡◌, true, false, List, [], map}
use mm_exper.Procmap.Case.{Config}
use mm_exper.Procmap.Cases.{Shown, all_states}
use mm_exper.Procmap.Cases.Laws.{with_all, iterate_cases-twice}
use mm_exper.Procmap.Program.{Answers, empty_config, first_cases, second_cases}

abbrev configs : List Shown → List Config
configs shown = map (λ (s : Shown). s.conf) shown

-- Both calls of iterate_cases go through the same pairs of states, each twice and with the primary VMA
-- populated, the first without and the second with relocation.
pub first_cases-twice :
    (first second : Answers) (conf : Config)
    → (configs (first_cases first).shown ≡ with_all false all_states all_states)
      × (configs (second_cases second conf).shown ≡ with_all true all_states all_states)
unfolding first_cases second_cases
first_cases-twice first second conf = (
  iterate_cases-twice first.kernel empty_config [],
  iterate_cases-twice second.kernel (record conf { relocate_anon = true }) [],
)
