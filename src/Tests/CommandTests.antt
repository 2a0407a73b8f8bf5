-- ===== src/Tests/CommandTests.antt =====
-- The programs of pagestat on the process of the tests of the snapshots.
use mm_exper.Base.{◌≡◌, refl, true, false, none, List, [], ◌∷◌}
use mm_exper.Base.Text.{codes}
use mm_exper.Base.Output.{text}
use mm_exper.PageStat.Data.{PageStat}
use mm_exper.PageStat.Print.{unseen}
use mm_exper.PageStat.Diff.{pagestat_print_diff_all}
use mm_exper.PageStat.Commands.{running, parse_args, watch_cmd, interval}
use mm_exper.PageStat.Commands.Laws.{no_updates, pagestat_print_diff_all_self, watch_cmd-unchanged}
use mm_exper.Tests.SmapsTests.{proc, pid, locals, taken_at, taken}
use mm_exper.Tests.PrintTests.{linux_flags}

abbrev snapshots : List PageStat
snapshots = taken_at 0x400000 ∷ taken_at 0x600000 ∷ []

same_snapshots :
    pagestat_print_diff_all proc linux_flags snapshots snapshots unseen
    ≡ record { result = false; out = []; seen = unseen }
same_snapshots = pagestat_print_diff_all_self proc linux_flags snapshots unseen

-- Three rounds.
watch_cmd-unchanged_example :
    watch_cmd linux_flags locals (λ k. proc) (codes "watch" ∷ codes "7" ∷ []) 3 unseen
    ≡ record { out = no_updates false 3; status = running; seen = unseen }
unfolding parse_args
watch_cmd-unchanged_example =
    watch_cmd-unchanged linux_flags locals (λ k. proc) pid false snapshots (λ k. taken)
      (codes "watch" ∷ codes "7" ∷ []) 3 unseen refl

rounds : no_updates false 2 ≡ text "(no updates)\n" ∷ text "(no updates)\n" ∷ []
rounds = refl

-- An option of which "-s" is only the start is refused; the interval is ten times shorter if silent.
refused_option : parse_args (codes "watch" ∷ codes "7" ∷ codes "-silent" ∷ []) ≡ none
unfolding parse_args
refused_option = refl

intervals : interval true ≡ 100000
intervals = refl
