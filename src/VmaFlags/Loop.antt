-- ===== src/VmaFlags/Loop.antt =====
-- Which names the loop prints, and which flags it leaves.
use mm_exper.Base.{ℕ, ◌/◌, ◌%◌, ◌^◌, ◌<◌, ◌≡◌, refl, sym, ap, ◌∙◌, arith}
use mm_exper.Base.{
  Bool, true, false, ◌||◌, ◌&&◌, ltb, ◌==◌, Bool-cases, ==_iff, inl, inr, if◌then◌else◌, bit_and,
}
use mm_exper.Base.{List, [], ◌∷◌}
use mm_exper.Base.Masks.{bit_and-two_pow, two_pow_pos}
use mm_exper.Base.BitAt.{bit_at, bit_at-clear}
use mm_exper.Base.Word.{bit_not}
use mm_exper.VmaFlags.{FlagPair, flags_map, print_loop}

-- Whether one of the pairs has a flag.
abbrev pub has_flag : List FlagPair → ℕ → Bool
has_flag [] flag = false
has_flag (p ∷ ps) flag = flag == p.flag || has_flag ps flag

-- The pairs whose flag is set in `flags`, but those whose flag a pair in front of them has, or one of
-- the pairs `before`.
abbrev pub set_pairs : ℕ → List FlagPair → List FlagPair → List FlagPair
set_pairs flags before [] = []
set_pairs flags before (p ∷ ps) =
    let rest = set_pairs flags (p ∷ before) ps in
    if has_flag before p.flag then rest else if flags / p.flag % 2 == 1 then p ∷ rest else rest

-- Each flag is a single bit of 64.
abbrev pub IsBit : ℕ → Type 0
IsBit flag = (k : ℕ) × (k < 64) × (flag ≡ 2 ^ k)

abbrev pub AreBits : List FlagPair → Type 0
AreBits [] = Unit
AreBits (p ∷ ps) = IsBit p.flag × AreBits ps

-- `now` is `flags` without the flags of the pairs `before`.
abbrev Without : List FlagPair → ℕ → ℕ → Type 0
Without before flags now =
    (j : ℕ) → j < 64 → bit_at j now ≡ (if has_flag before (2 ^ j) then 0 else bit_at j flags)

test_bit : (k now : ℕ) → (bit_and now (2 ^ k) == 2 ^ k) ≡ (bit_at k now == 1)
test_bit k now = ground (arith, bit_and-two_pow k now, two_pow_pos k)

-- What the loop prints, and what it leaves.
abbrev Loops : List FlagPair → List FlagPair → ℕ → ℕ → Type 0
Loops before ps flags now =
    ((print_loop ps now).0 ≡ set_pairs flags before ps)
    × ((j : ℕ)
        → j < 64
        → bit_at j (print_loop ps now).1
          ≡ (if has_flag before (2 ^ j) || has_flag ps (2 ^ j) then 0 else bit_at j flags))

module _ (p : FlagPair) (before : List FlagPair) (flags now k : ℕ) (hk : k < 64) where
  -- Behind a pair whose flag was cleared, and behind one that was not set.
  Without-cleared :
      p.flag ≡ 2 ^ k
      → Without before flags now
      → Without (p ∷ before) flags (bit_and now (bit_not p.flag))
  Without-cleared e w j hj = ground (
    arith,
    ap (λ (t : ℕ). bit_at j (bit_and now (bit_not t))) e,
    bit_at-clear j k now hj hk,
    w j hj,
    e,
  )

  Without-passed :
      p.flag ≡ 2 ^ k
      → (bit_at k now == 1) ≡ false
      → Without before flags now
      → Without (p ∷ before) flags now
  Without-passed e c w j hj = elim (Bool-cases (2 ^ j == 2 ^ k)) [
    | inl same ↦
        ground (arith, e, same, c, ap (λ (t : ℕ). now / t) ((==_iff (2 ^ j) (2 ^ k)).0 same))
    | inr other ↦ ground (arith, e, other, w j hj)
  ]

  printed_here :
      p.flag ≡ 2 ^ k
      → Without before flags now
      → (bit_and now p.flag == p.flag)
        ≡ (if has_flag before p.flag then false else flags / p.flag % 2 == 1)
  printed_here e w = rw e (test_bit k now ∙ ground (arith, w k hk))

  one_pair :
      (ps : List FlagPair)
      → p.flag ≡ 2 ^ k
      → Without before flags now
      → Loops (p ∷ before) ps flags (bit_and now (bit_not p.flag))
      → ((bit_and now p.flag == p.flag) ≡ false → Loops (p ∷ before) ps flags now)
      → Loops before (p ∷ ps) flags now
  unfolding print_loop
  one_pair ps e w cleared passed = elim (Bool-cases (bit_and now p.flag == p.flag)) [
    | inl set ↦
        rw (set, print_loop)
          (ground (arith, set, printed_here e w, cleared.0), λ j h. ground (arith, cleared.1 j h))
    | inr clear ↦
        let rest = passed clear in
        rw (clear, print_loop)
          (ground (arith, clear, printed_here e w, rest.0), λ j h. ground (arith, rest.1 j h))
  ]

loop-Loops :
    (ps before : List FlagPair) (flags now : ℕ)
    → AreBits ps
    → Without before flags now
    → Loops before ps flags now
unfolding print_loop
loop-Loops [] before flags now b w = (refl, λ j h. ground (arith, w j h))
loop-Loops (p ∷ ps) before flags now ((k, hk, e), b) w =
    one_pair p before flags now k hk ps e w
      (loop-Loops ps (p ∷ before) flags _ b (Without-cleared p before flags now k hk e w))
      (λ clear.
        loop-Loops ps (p ∷ before) flags now b
          (Without-passed p before flags now k hk e (not_set k now p.flag e clear) w))
  where
    not_set :
        (k now flag : ℕ)
        → flag ≡ 2 ^ k
        → (bit_and now flag == flag) ≡ false
        → (bit_at k now == 1) ≡ false
    not_set k now flag e clear =
        sym (test_bit k now) ∙ sym (ap (λ (t : ℕ). bit_and now t == t) e) ∙ clear

-- Each flag is the power of two with the exponent beside it.
are_powers : List ℕ → List FlagPair → Bool
are_powers (k ∷ ks) (p ∷ ps) = ltb k 64 && (p.flag == 2 ^ k && are_powers ks ps)
are_powers [] [] = true
are_powers _ _ = false

are_powers-AreBits : (ks : List ℕ) (ps : List FlagPair) → are_powers ks ps ≡ true → AreBits ps
unfolding are_powers
are_powers-AreBits [] [] h = tt
are_powers-AreBits (k ∷ ks) [] h = absurd (ground arith)
are_powers-AreBits [] (p ∷ ps) h = absurd (ground arith)
are_powers-AreBits (k ∷ ks) (p ∷ ps) h =
    ((k, ground arith, ground arith), are_powers-AreBits ks ps (ground arith))

flags_map-AreBits : AreBits flags_map
unfolding are_powers
flags_map-AreBits =
    are_powers-AreBits
      (0 ∷ 1 ∷ 2 ∷ 3 ∷ 4 ∷ 5 ∷ 6 ∷ 7 ∷ 8 ∷ 9 ∷ 10 ∷ 12 ∷ 13 ∷ 14 ∷ 15 ∷ 16 ∷ 17 ∷ 18 ∷ 19 ∷ 20 ∷ 21
        ∷ 22 ∷ 23 ∷ 25 ∷ 26 ∷ 27 ∷ 28 ∷ 29 ∷ 30 ∷ 31 ∷ 5 ∷ 32 ∷ 33 ∷ 34 ∷ 35 ∷ 36 ∷ 24 ∷ 37 ∷ [])
      flags_map refl

-- For all `flags` of 64 bits, the loop of `print_vma_flags` prints exactly the pairs of the table whose
-- flag is set in `flags` and which no pair with the same flag stands in front of, in the table's order,
-- and what it leaves for "(invalid: ... remain)" has the binary digits of `flags` at the places that no
-- pair names and 0 at the others.
pub print_loop-set_pairs :
    (flags : ℕ)
    → ((print_loop flags_map flags).0 ≡ set_pairs flags [] flags_map)
      × ((j : ℕ)
          → j < 64
          → bit_at j (print_loop flags_map flags).1
            ≡ (if has_flag flags_map (2 ^ j) then 0 else bit_at j flags))
print_loop-set_pairs flags = loop-Loops flags_map [] flags flags flags_map-AreBits (λ j h. refl)
