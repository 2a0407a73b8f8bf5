-- ===== src/BlockVsFile/Letters.antt =====
-- The letters: the loops end, and each write can be seen.
use mm_exper.Base.{ℕ, ◌≤◌, ◌≡◌, ◌≢◌, refl, arith, true, false, ◌==◌, Bool-cases, inl, inr}
use mm_exper.Base.{some, List, [], ◌∷◌}
use mm_exper.BlockVsFile.{next_char, next_other, Write, to_file, to_dev, letter_writes}

abbrev pub IsLetter : ℕ → Type 0
IsLetter chr = (b'a' ≤ chr) × (chr ≤ b'z')

-- The writes show, from the bytes of the two mappings on: each is a letter other than the byte it replaces
-- and than the first byte of the other mapping, as it is then.
abbrev pub Show : ℕ → ℕ → List Write → Type 0
Show file dev [] = Unit
Show file dev (to_file chr ∷ ws) = IsLetter chr × (chr ≢ file) × (chr ≢ dev) × Show chr dev ws
Show file dev (to_dev chr ∷ ws) = IsLetter chr × (chr ≢ dev) × (chr ≢ file) × Show file chr ws

next_char-IsLetter :
    (chr : ℕ) → IsLetter (next_char chr) × (next_char chr ≢ chr) × (next_char (next_char chr) ≢ chr)
unfolding next_char
next_char-IsLetter chr = (ground arith, ground arith, ground arith)

-- Two rounds of the loop are enough.
next_other-two :
    (other chr : ℕ)
    → (r : ℕ) × (next_other 2 other chr ≡ some r) × IsLetter r × (r ≢ other) × (r ≢ chr)
unfolding next_other
next_other-two other chr = elim (Bool-cases (next_char chr == other)) [
  | inl same ↦ (
    next_char (next_char chr),
    rw (next_other, same) (rw (again same) refl),
    (next_char-IsLetter (next_char chr)).0,
    ground (arith, same, (next_char-IsLetter (next_char chr)).1),
    (next_char-IsLetter chr).2,
  )
  | inr new ↦ (
    next_char chr,
    rw (next_other, new) refl,
    (next_char-IsLetter chr).0,
    ground (arith, new),
    (next_char-IsLetter chr).1,
  )
]
  where
    again : (next_char chr == other) ≡ true → (next_char (next_char chr) == other) ≡ false
    again same = ground (arith, same, (next_char-IsLetter (next_char chr)).1)

-- Two rounds are enough for each loop of `main`: from any two bytes the program comes to write its five
-- letters. The first write changes the byte of the file; each of the four others is a letter other than
-- the byte it replaces and than the first byte of the other mapping, as the program has left it.
pub letter_writes-Show :
    (file dev : ℕ)
    → (ws : List Write) × (letter_writes 2 file dev ≡ some (to_file (next_char file) ∷ ws))
      × IsLetter (next_char file)
      × (next_char file ≢ file)
      × Show (next_char file) dev ws
unfolding letter_writes
letter_writes-Show file dev =
    let f1 = next_char file in
    let (d1, e1, l1, o1, c1) = next_other-two f1 dev in
    let (d2, e2, l2, o2, c2) = next_other-two f1 d1 in
    let (f2, e3, l3, o3, c3) = next_other-two d2 f1 in
    let (d3, e4, l4, o4, c4) = next_other-two f2 d2 in
    (
      to_dev d1 ∷ to_dev d2 ∷ to_file f2 ∷ to_dev d3 ∷ [],
      rw (letter_writes, e1, e2, e3, e4) refl,
      (next_char-IsLetter file).0,
      (next_char-IsLetter file).1,
      (l1, c1, o1, (l2, c2, o2, (l3, c3, o3, (l4, c4, o4, tt)))),
    )
