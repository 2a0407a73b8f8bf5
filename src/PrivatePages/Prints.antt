-- ===== src/PrivatePages/Prints.antt =====
-- What the prints of random/private2.c read outside the mappings or the file.
use native.Mathlib.Nat.{pow-suc, pow-le-pow_right}
use mathlib.Core.List.{append-nil}
use mm_exper.Base.{
  ℕ, zero, suc, ◌*◌, ◌^◌, ◌≤◌, ◌<◌, ◌≡◌, refl, ap, ◌∙◌, arith, Bool, true, false, not, ◌&&◌,
  if◌then◌else◌,
}
use mm_exper.Base.{List, [], ◌∷◌, ◌++◌}
use mm_exper.Base.Masks.{two_pow_pos}
use mm_exper.PrivatePages.{
  Mapping, shared, private, Access, write, read, every, size, reset_buffer, copy_first_half,
  print_both, print_loop, do_overwrite, stages, main,
}
use mm_exper.PrivatePages.Faults.{
  outside, all_outside, outside-append, every-inside, every-last, num_pages_lem,
}

module _ (k : ℕ) (hk : k < 28) where
  abbrev page : ℕ
  page = 2 ^ k

  room : page * 2 ≤ 2 ^ 32
  room = ground (
    arith,
    pow-suc 2 k,
    pow-le-pow_right {n = 2} (omega arith) {i = suc k} {j = 32} (omega arith),
  )

  -- The byte behind each mapping.
  abbrev pub behind : List Access
  behind = read shared (size page) ∷ read private (size page) ∷ []

  loop-inside :
      (file : ℕ)
      → size page ≤ file
      → (m : Mapping) → outside (size page) file (every (read m) page 10 0) ≡ []
  loop-inside file h m =
      every-inside (size page) file (read m) (λ i. refl) page (two_pow_pos k) 10 0 (omega arith)
        (omega arith)

  loop-behind :
      (m : Mapping)
      → outside (size page) (11 * page) (every (read m) page 11 0) ≡ read m (size page) ∷ []
  loop-behind m =
      every-last (size page) (11 * page) (read m) (λ i. refl) page (two_pow_pos k) 10 0
        (omega arith) (omega (arith, two_pow_pos k))

  print-inside : outside (size page) (size page) (print_both page (size page)) ≡ []
  print-inside = rw (num_pages_lem 10 k (omega arith) (omega (arith, room))) (
      outside-append (size page) (size page) (every (read shared) page 10 0)
        (every (read private) page 10 0)
      ∙ rw
          (
            loop-inside (size page) (omega arith) shared,
            loop-inside (size page) (omega arith) private,
          )
          refl)

  print-behind : outside (size page) (11 * page) (print_both page (11 * page)) ≡ behind
  print-behind = rw (num_pages_lem 11 k (omega arith) (omega (arith, room))) (
      outside-append (size page) (11 * page) (every (read shared) page 11 0)
        (every (read private) page 11 0)
      ∙ rw (loop-behind shared, loop-behind private) refl)

  reset-inside : (file : ℕ) → size page ≤ file → outside (size page) file (reset_buffer page) ≡ []
  reset-inside file h =
      every-inside (size page) file (write shared) (λ i. refl) 1 (omega arith) (size page) 0
        (omega arith) (omega arith)

  copy-inside : (file : ℕ) → size page ≤ file → outside (size page) file (copy_first_half page) ≡ []
  copy-inside file h =
      every-inside (size page) file (write private) (λ i. refl) page (two_pow_pos k) 5 0
        (omega arith) (omega arith)

  start-inside :
      outside (size page) (size page) (
        reset_buffer page
        ++ (print_both page (size page) ++ (copy_first_half page ++ print_both page (size page))))
      ≡ []
  start-inside =
      let app = outside-append (size page) (size page) in
      rw
        (
          app (reset_buffer page) (
              print_both page (size page) ++ (copy_first_half page ++ print_both page (size page))),
          app (print_both page (size page)) (copy_first_half page ++ print_both page (size page)),
          app (copy_first_half page) (print_both page (size page)),
          reset-inside (size page) (omega arith),
          copy-inside (size page) (omega arith),
          print-inside,
        )
        refl

  -- A print and then the second reset.
  print-reset :
      (file : ℕ)
      → size page ≤ file
      → outside
          (size page)
          file
          (print_both page file ++ (reset_buffer page ++ copy_first_half page))
        ≡ outside (size page) file (print_both page file)
  print-reset file h =
      let app = outside-append (size page) file in
      rw
        (
          app (print_both page file) (reset_buffer page ++ copy_first_half page),
          app (reset_buffer page) (copy_first_half page),
          reset-inside file h,
          copy-inside file h,
          append-nil (outside (size page) file (print_both page file)),
        )
        refl

  -- What a print shows from outside, in each round.
  abbrev pub repeated : ℕ → List Access → List Access
  repeated zero xs = []
  repeated (suc n) xs = xs ++ repeated n xs

  print_loop_lem :
      (n file : ℕ)
      → all_outside (size page) (print_loop page n file)
        ≡ repeated n (outside (size page) file (print_both page file))
  unfolding all_outside print_loop
  print_loop_lem zero file = refl
  print_loop_lem (suc n) file =
      ap (λ xs. outside (size page) file (print_both page file) ++ xs) (print_loop_lem n file)

  -- What a print reads outside.
  abbrev printed : ℕ → List Access
  printed file = outside (size page) file (print_both page file)

  overwrite_lem : (file : ℕ) → size page ≤ file → do_overwrite page file ≡ file
  overwrite_lem file h = ground arith

  stages-outside :
      (larger again rounds : ℕ)
      → size page ≤ again
      → all_outside (size page) (stages page larger again rounds)
        ≡ printed larger ++ repeated (suc (suc rounds)) (printed again)
  unfolding all_outside stages
  stages-outside larger again rounds h =
      rw (overwrite_lem again h, start-inside, print-reset again h, print_loop_lem rounds again)
        refl

  -- For a page size that is a power of two below 2 ^ 28, whichever of the three unchecked calls of
  -- ftruncate fails, unless the file stays cut to five pages: each access of the program lies in its mapping
  -- and in the file, except that after the file has grown to eleven pages the prints read the first byte
  -- behind both mappings: one print if a later call makes it smaller, and otherwise all that follow.
  pub main-outside :
      (up down back : Bool) (rounds : ℕ)
      → (down && not back) ≡ false
      → all_outside (size page) (main page up down back rounds)
        ≡ (if up then behind else [])
          ++ repeated (suc (suc rounds)) (if up && (not down && not back) then behind else [])
  unfolding main
  main-outside true true true rounds h =
      stages-outside (11 * page) (size page) rounds (omega arith)
      ∙ rw (print-behind, print-inside) refl
  main-outside true false true rounds h =
      stages-outside (11 * page) (size page) rounds (omega arith)
      ∙ rw (print-behind, print-inside) refl
  main-outside true false false rounds h =
      stages-outside (11 * page) (11 * page) rounds (omega arith) ∙ rw print-behind refl
  main-outside false true true rounds h =
      stages-outside (size page) (size page) rounds (omega arith) ∙ rw print-inside refl
  main-outside false false true rounds h =
      stages-outside (size page) (size page) rounds (omega arith) ∙ rw print-inside refl
  main-outside false false false rounds h =
      stages-outside (size page) (size page) rounds (omega arith) ∙ rw print-inside refl
  main-outside true true false rounds h = ground (arith, h)
  main-outside false true false rounds h = ground (arith, h)
