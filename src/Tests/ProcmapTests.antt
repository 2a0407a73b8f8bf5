-- ===== src/Tests/ProcmapTests.antt =====
-- random/procmap.c: single cases.
use mm_exper.Base.{◌≡◌, refl, true, false, some, [], ◌++◌, length}
use mm_exper.Base.Text.{codes}
use mm_exper.Procmap.Case.{no_vma, different_anon_vma, Config, print_state, state_to_char}
use mm_exper.Procmap.Moves.{try_calls, init_mappings}
use mm_exper.Procmap.Moves.Layout.{
  run_calls, asked, undistinguished, try_calls-asked, init_mappings-undistinguished,
}
use mm_exper.Procmap.Cases.{Kernel, all_states}
use mm_exper.Procmap.Protect.{protect_calls, cleanup_calls}
use mm_exper.Procmap.Protect.Layout.{
  Layout, page, unmapped, after_calls, fifteen_in_a_row, protect_calls-in_a_row,
}
use mm_exper.Procmap.Cases.Laws.{with_all}

abbrev one_different : Config
one_different = record {
  left = different_anon_vma;
  right = no_vma;
  primary_populated = false;
  relocate_anon = false;
}

printed : print_state one_different ≡ codes "x._"
unfolding print_state state_to_char
printed = refl

try_calls-asked_example : run_calls (try_calls one_different) (some []) ≡ some (asked one_different)
try_calls-asked_example = try_calls-asked one_different

init_mappings-undistinguished_example :
    init_mappings one_different ≡ init_mappings (undistinguished one_different)
init_mappings-undistinguished_example = init_mappings-undistinguished one_different

-- A kernel that merges nothing.
abbrev separate : Kernel
separate = record {
  page_size = 4096;
  reserved = λ calls. 0x10000;
  vma_start = λ calls. 0x11000;
  vma_end = λ calls. 0x12000;
}

tried : length (with_all false all_states all_states) ≡ 48
tried = refl

-- Read-only pages all around.
abbrev surrounded : Layout
surrounded i = page false i

protect_calls-in_a_row_example :
    (after_calls (protect_calls true) surrounded 64 ≡ fifteen_in_a_row surrounded 64)
    × (after_calls (protect_calls true ++ cleanup_calls) surrounded 64 ≡ unmapped)
    × (after_calls cleanup_calls surrounded 64 ≡ unmapped)
protect_calls-in_a_row_example = protect_calls-in_a_row true surrounded 64
