-- ===== src/PageStat/Commands.antt =====
-- pagestat/pagestat-cmd.c and pagestat/watch-cmd.c: the two programs. Messages on stderr are left out.
pub mod Laws
use mm_exper.Base.{ℕ, zero, suc, ◌/◌, ◌+◌, Bool, true, false, not, ◌&&◌, if◌then◌else◌}
use mm_exper.Base.{Option, none, some, List, [], ◌∷◌, ◌++◌}
use mm_exper.Base.Text.{Bytes, codes, str_eq}
use mm_exper.Base.Output.{Output, print_if}
use mm_exper.Base.Proc.{Proc}
use mm_exper.PageStat.Data.{PageStat}
use mm_exper.PageStat.Smaps.{Locals}
use mm_exper.PageStat.Snapshot.{pagestat_snapshot_all}
use mm_exper.PageStat.Print.{Seen, pagestat_print_all}
use mm_exper.PageStat.Print.Flags.{KernelFlags}
use mm_exper.PageStat.Diff.{pagestat_print_diff_all}

-- How a program stands: it has left `main` with a status, read through a null pointer, or is in its loop
-- still.
pub data Status : Type 0 where
  success : Status
  failure : Status
  crashed : Status
  running : Status

pub record Progress : Type 0 where
  pub out : Output
  pub status : Status
  pub seen : Seen

abbrev ended : Status → Seen → Progress
ended status s = record { out = []; status = status; seen = s }

-- The arguments, the name of the program first: the process and whether to be silent. `strncmp` also
-- compares the final zero.
unfoldable pub parse_args : List Bytes → Option (Bytes × Bool)
unfolding str_eq
parse_args (bin ∷ pid ∷ []) = some (pid, false)
parse_args (bin ∷ pid ∷ option ∷ rest) =
    if str_eq option (codes "-s") then some (pid, true) else none
parse_args _ = none

-- `interval`, in microseconds.
abbrev pub interval : Bool → ℕ
interval silent = if silent then 1000000 / 10 else 1000000

module _ (kpf : KernelFlags) (locals : Locals) where
  abbrev print_snapshot : Proc → Bool → Option (List PageStat) → Seen → Progress
  print_snapshot proc silent none s = ended failure s
  print_snapshot proc silent (some pss) s =
      let (out, t) = pagestat_print_all proc kpf pss s in
      if silent then ended success s else record { out = out; status = success; seen = t }

  -- `main` of pagestat-cmd.c.
  unfoldable pub pagestat_cmd : Proc → List Bytes → Seen → Progress
  unfolding parse_args
  pagestat_cmd proc argv s = elim (parse_args argv) [
    | none ↦ ended failure s
    | some (pid, silent) ↦ print_snapshot proc silent (pagestat_snapshot_all proc locals pid) s
  ]

  -- `n` rounds of the loop of watch-cmd.c, the next of them round `k`, in which /proc is `procs k`. The
  -- comparison reads the array of snapshots without a test for null.
  unfoldable pub watch_loop : (ℕ → Proc) → Bytes → Bool → ℕ → ℕ → List PageStat → Seen → Progress
  watch_loop procs pid silent zero k pss s = ended running s
  watch_loop procs pid silent (suc n) k pss s = elim (pagestat_snapshot_all (procs k) locals pid) [
    | none ↦ ended crashed s
    | some pss_curr ↦
        let p = pagestat_print_diff_all (procs k) kpf pss pss_curr s in
        let later = watch_loop procs pid silent n (k + 1) pss_curr p.seen in
        record later {
          out = p.out ++ (print_if (not p.result && not silent) "(no updates)\n" ++ later.out);
        }
  ]

  abbrev pub watch_from : (ℕ → Proc) → Bytes → Bool → ℕ → Option (List PageStat) → Seen → Progress
  watch_from procs pid silent n none s = ended failure s
  watch_from procs pid silent n (some pss) s = watch_loop procs pid silent n 1 pss s

  -- `main` of watch-cmd.c, up to the end of its first `n` rounds.
  unfoldable pub watch_cmd : (ℕ → Proc) → List Bytes → ℕ → Seen → Progress
  unfolding parse_args watch_loop
  watch_cmd procs argv n s = elim (parse_args argv) [
    | none ↦ ended failure s
    | some (pid, silent) ↦
        watch_from procs pid silent n (pagestat_snapshot_all (procs 0) locals pid) s
  ]
