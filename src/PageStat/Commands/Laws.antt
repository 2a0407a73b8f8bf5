-- ===== src/PageStat/Commands/Laws.antt =====
-- A comparison of snapshots with themselves, and the watch of a process that does not change.
use mm_exper.Base.{ℕ, zero, suc, ◌+◌, ◌≡◌, refl, ap, ◌∙◌, arith, Bool, true, false, not}
use mm_exper.Base.{Option, none, some, List, [], ◌∷◌, ◌++◌, take}
use mm_exper.Base.Text.{Bytes, str_eq}
use mm_exper.Base.Word.{add64}
use mm_exper.Base.Output.{Output, print_if}
use mm_exper.Base.Proc.{Proc}
use mm_exper.PageStat.Data.{PageStat, max_maps}
use mm_exper.PageStat.Smaps.{Locals}
use mm_exper.PageStat.PageTable.{count_virt_pages}
use mm_exper.PageStat.Snapshot.{pagestat_snapshot_all}
use mm_exper.PageStat.Print.{Seen, Printed}
use mm_exper.PageStat.Print.Flags.{KernelFlags}
use mm_exper.PageStat.Diff.{
  differs, text_differs, or_empty, diff_numbers, diff_texts, same_page, diff_pages, diff_contents,
  pagestat_print_diff, diff_all_from, head_of, tail_of, pagestat_print_diff_all,
}
use mm_exper.PageStat.Diff.Laws.{same_range}
use mm_exper.PageStat.Commands.{Progress, running, parse_args, watch_loop, watch_cmd}

-- Nothing is reported.
abbrev quiet : Seen → Printed
quiet s = record { result = false; out = []; seen = s }

differs_self : (n : ℕ) → differs n n ≡ false
differs_self n = ground arith

str_eq_self : (s : Bytes) → str_eq s s ≡ true
unfolding str_eq
str_eq_self [] = refl
str_eq_self (c ∷ cs) = ground (arith, str_eq_self cs)

text_differs_self : (t : Option Bytes) → text_differs t t ≡ false
text_differs_self t = ap not (str_eq_self (take 255 (or_empty t)))

same_page_self : (a : PageStat) (i : ℕ) → same_page a a i ≡ true
unfolding same_page
same_page_self a i = ground arith

diff_numbers_self : (a : PageStat) → diff_numbers a a ≡ []
unfolding diff_numbers
diff_numbers_self a = simp (differs_self)

diff_texts_self : (a : PageStat) → diff_texts a a ≡ []
unfolding diff_texts
diff_texts_self a =
    rw
      (
        text_differs_self a.vm_flags,
        text_differs_self a.name,
        str_eq_self a.perms,
        differs_self a.offset,
      )
      refl

module _ (proc : Proc) (kpf : KernelFlags) where
  diff_pages_self :
      (a : PageStat) (n i addr : ℕ) (s : Seen) → diff_pages proc kpf a a n i addr false s ≡ quiet s
  unfolding diff_pages
  diff_pages_self a zero i addr s = refl
  diff_pages_self a (suc n) i addr s =
      rw (diff_pages, same_page_self a i)
        (diff_pages_self a n (i + 1) (add64 addr proc.page_size) s)

  print_diff_self : (a : Option PageStat) (s : Seen) → pagestat_print_diff proc kpf a a s ≡ quiet s
  unfolding pagestat_print_diff diff_contents
  print_diff_self none s = refl
  print_diff_self (some a) s =
      same_range proc kpf a a s (refl, refl)
      ∙ rw
          (
            diff_contents,
            diff_numbers_self a,
            diff_texts_self a,
            diff_pages_self a (count_virt_pages proc a) 0 a.vma_start s,
          )
          refl

  diff_all_from_self :
      (n : ℕ) (pss : List PageStat) (s : Seen) → diff_all_from proc kpf n pss pss s ≡ quiet s
  unfolding diff_all_from
  diff_all_from_self zero pss s = refl
  diff_all_from_self (suc n) pss s =
      rw
        (
          diff_all_from,
          print_diff_self (head_of proc kpf pss) s,
          diff_all_from_self n (tail_of proc kpf pss) s,
        )
        refl

-- What the rounds of a watch print where nothing is reported.
abbrev pub no_updates : Bool → ℕ → Output
no_updates silent zero = []
no_updates silent (suc n) = print_if (not silent) "(no updates)\n" ++ no_updates silent n

abbrev still_running : Bool → ℕ → Seen → Progress
still_running silent n s = record { out = no_updates silent n; status = running; seen = s }

-- Two snapshots that are the same are compared without a report: pagestat_print_diff_all prints nothing,
-- returns false and leaves the static variables of the listing as they are.
pub pagestat_print_diff_all_self :
    (proc : Proc) (kpf : KernelFlags) (pss : List PageStat) (s : Seen)
    → pagestat_print_diff_all proc kpf pss pss s ≡ record { result = false; out = []; seen = s }
unfolding pagestat_print_diff_all
pagestat_print_diff_all_self proc kpf pss s = diff_all_from_self proc kpf max_maps pss s

module _ (kpf : KernelFlags) (locals : Locals) (procs : ℕ → Proc) (pid : Bytes) (silent : Bool)
    (pss : List PageStat)
    (unchanged : (k : ℕ) → pagestat_snapshot_all (procs k) locals pid ≡ some pss) where
  watch_loop-unchanged :
      (n k : ℕ) (s : Seen)
      → watch_loop kpf locals procs pid silent n k pss s ≡ still_running silent n s
  unfolding watch_loop
  watch_loop-unchanged zero k s = refl
  watch_loop-unchanged (suc n) k s =
      rw
        (
          watch_loop,
          unchanged k,
          pagestat_print_diff_all_self (procs k) kpf pss s,
          watch_loop-unchanged n (k + 1) s,
        )
        refl

  -- With arguments that name a process: if all snapshots of the process are the same array, then
  -- watch-cmd.c is in its loop still behind any number of rounds, and each round has printed the line
  -- "(no updates)" and nothing else, or nothing if it is silent.
  pub watch_cmd-unchanged :
      (argv : List Bytes) (n : ℕ) (s : Seen)
      → parse_args argv ≡ some (pid, silent)
      → watch_cmd kpf locals procs argv n s
        ≡ record { out = no_updates silent n; status = running; seen = s }
  unfolding watch_cmd
  watch_cmd-unchanged argv n s e = rw (watch_cmd, e, unchanged 0) (watch_loop-unchanged n 1 s)
