-- ===== src/Procmap/Program.antt =====
-- random/procmap.c: `main`, which goes through all cases without and with relocation.
pub mod Laws
use mm_exper.Base.{
  ℕ, Bool, true, false, if◌then◌else◌, Option, none, some, List, [], ◌∷◌, ◌++◌, map,
}
use mm_exper.Base.Output.{Output, text, outputs}
use mm_exper.Procmap.Case.{Config, no_vma}
use mm_exper.Procmap.Query.{print_query_result}
use mm_exper.Procmap.Cases.{Kernel, Shown, Progress, iterate_cases}
use mm_exper.Procmap.Protect.{print_merged}

-- The kernel in one call of `iterate_cases`, and the ends of the VMA that `do_mremap_mprotect` asks for.
pub record Answers : Type 0 where
  pub kernel : Kernel
  pub vma_start : ℕ
  pub vma_end : ℕ

-- `print_query_result` of each case, and `do_mremap_mprotect`.
abbrev pub print_shown : Shown → Output
print_shown s = print_query_result s.conf s.res

unfoldable pub print_cases : Answers → List Shown → Output
print_cases answers shown =
    outputs (map print_shown shown)
    ++ print_merged answers.kernel.page_size answers.vma_start answers.vma_end

-- `struct mremap_merge_config conf = {}`.
abbrev pub empty_config : Config
empty_config = record {
  left = no_vma;
  right = no_vma;
  primary_populated = false;
  relocate_anon = false;
}

-- The two calls of `iterate_cases`; `conf` is the same object in both.
unfoldable pub first_cases : Answers → Progress
first_cases answers =
    iterate_cases answers.kernel (record { conf = empty_config; calls = []; shown = [] })

unfoldable pub second_cases : Answers → Config → Progress
second_cases answers conf =
    iterate_cases answers.kernel
      (record { conf = record conf { relocate_anon = true }; calls = []; shown = [] })

-- What is printed, or none where `init_self_procmap` fails, by what the kernel answers in both calls.
unfoldable pub main : Bool → Answers → Answers → Option Output
main opened first second =
    let plain = first_cases first in
    let relocated = second_cases second plain.conf in
    if opened
    then some (
        print_cases first plain.shown
        ++ text "-- WITH MREMAP_RELOCATE_ANON: --\n" ∷ print_cases second relocated.shown)
    else none
