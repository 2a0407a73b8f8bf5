-- ===== src/Tests/PrivateTests.antt =====
-- random/private2.c with pages of 4 KiB, and with pages of a byte.
use mm_exper.Base.{◌≡◌, refl, arith, true, [], ◌∷◌}
use mm_exper.PrivatePages.{shared, private, write, read, every, main, size}
use mm_exper.PrivatePages.Faults.{outside, all_outside}
use mm_exper.PrivatePages.Prints.{main-outside}

-- If the file cannot be made larger again, the second reset writes behind its end.
left_cut :
    outside 10 5 (every (write shared) 1 10 0)
    ≡ write shared 5 ∷ write shared 6 ∷ write shared 7 ∷ write shared 8 ∷ write shared 9 ∷ []
unfolding outside every
left_cut = refl

main-outside_example :
    all_outside (size 4096) (main 4096 true true true 2)
    ≡ read shared 40960 ∷ read private 40960 ∷ []
main-outside_example = main-outside 12 (omega arith) true true true 2 refl
