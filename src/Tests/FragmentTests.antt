-- ===== src/Tests/FragmentTests.antt =====
-- kernel/fragment/fragment.c: a kernel with two blocks that maps memory three times.
use mathlib.Core.Option
use mm_exper.Base.{
  ℕ, zero, suc, ◌+◌, ◌*◌, ◌≡◌, refl, arith, Option, none, some, [], ◌∷◌, ◌++◌, ltb, if◌then◌else◌,
}
use mm_exper.Fragment.{
  Kernel, Loaded, alloc_pages, split_page, free_pages, vmalloc_huge, alloc_loop, split_loop,
  vmalloc_loop, after_alloc, fragment_init, fragment_exit,
}
use mm_exper.Fragment.Laws.{Held, replay, fragment_init-replay}

abbrev two_blocks : ℕ → Option ℕ
two_blocks zero = some 1024
two_blocks (suc zero) = some 512
two_blocks (suc (suc n)) = none

abbrev kernel : Kernel
kernel = record {
  alloc_pages = two_blocks;
  vmalloc_huge = λ i. if ltb i 3 then 4096 * (i + 1) else 0;
  page_size = 4096;
}

initialised :
    Option.map (λ (m : Loaded). m.calls) (fragment_init kernel 3)
    ≡ some (
        alloc_pages 1024
        ∷ alloc_pages 512
        ∷ split_page 512
        ∷ free_pages 768
        ∷ split_page 1024
        ∷ free_pages 1280
        ∷ vmalloc_huge 4096
        ∷ vmalloc_huge 8192
        ∷ vmalloc_huge 12288
        ∷ [])
unfolding fragment_init after_alloc alloc_loop split_loop vmalloc_loop
initialised = refl

fragment_init-replay_example :
    (m : Loaded) × (fragment_init kernel 3 ≡ some m)
    × ((h : Held) → replay h (m.calls ++ (fragment_exit kernel m).0) 0 ≡ some 0)
fragment_init-replay_example = fragment_init-replay kernel 3 2 refl (omega arith)
