-- ===== src/PageStat/Smaps/Flags.antt =====
-- The text that a "VmFlags:" line leaves in `vm_flags`.
use native.Mathlib.Nat.{add-zero, add-suc, le_refl}
use mathlib.Core.List.{append_assoc}
use mm_exper.Base.{ℕ, zero, suc, ◌+◌, ◌-◌, ◌<◌, ◌≤◌, ◌≡◌, refl, sym, ap, ◌∙◌, arith}
use mm_exper.Base.{Bool, true, false, ◌||◌, ◌==◌, Option, none, some, [], ◌∷◌, ◌++◌}
use mm_exper.Base.{
  length, get_or, take, drop, length-append, get_or-append, drop-append, take-append,
}
use mm_exper.Base.Text.{Bytes}
use mm_exper.PageStat.Smaps.{trim, flags_offset, flags_of, vm_flags_text}

abbrev pub is_blank : ℕ → Bool
is_blank chr = chr == b'\n' || chr == b' '

abbrev pub AreBlank : Bytes → Type 0
AreBlank [] = Unit
AreBlank (c ∷ cs) = (is_blank c ≡ true) × AreBlank cs

get_or-AreBlank : (t : Bytes) (i : ℕ) → AreBlank t → i < length t → is_blank (get_or t i 0) ≡ true
get_or-AreBlank [] i b h = elim h [ ]
get_or-AreBlank (c ∷ t) zero b h = b.0
get_or-AreBlank (c ∷ t) (suc i) b h = get_or-AreBlank t i b.1 (omega arith)

trim-blank :
    (xs : Bytes) (n : ℕ)
    → is_blank (get_or xs (flags_offset + suc n - 1) 0) ≡ true
    → trim xs (suc n) ≡ trim xs n
unfolding trim
trim-blank xs n h = rw h refl

trim_found :
    (xs : Bytes) (n : ℕ)
    → is_blank (get_or xs (flags_offset + suc n - 1) 0) ≡ false
    → trim xs (suc n) ≡ suc n
unfolding trim
trim_found xs n h = rw h refl

-- Past the last flag the loop goes down over the blanks, to the last flag's own count.
module _ (front body : Bytes) (last : ℕ) (tail : Bytes) where
  abbrev flags_line : Bytes
  flags_line = front ++ (body ++ last ∷ tail)

  -- The byte that a round looks at.
  chr_at :
      (n : ℕ)
      → length front ≡ 9
      → get_or flags_line (flags_offset + suc n - 1) 0 ≡ get_or (body ++ last ∷ tail) (suc n) 0
  chr_at n l =
      ap (λ (i : ℕ). get_or flags_line i 0) (index l)
      ∙ get_or-append front (body ++ last ∷ tail) (suc n) 0
    where
      index : length front ≡ 9 → flags_offset + suc n - 1 ≡ length front + suc n
      index l = omega arith

  chr_in_tail :
      (k : ℕ)
      → length front ≡ 9
      → get_or flags_line (flags_offset + suc (length body + k) - 1) 0 ≡ get_or tail k 0
  chr_in_tail k l =
      chr_at (length body + k) l
      ∙ ap (λ (i : ℕ). get_or (body ++ last ∷ tail) i 0) (sym (add-suc (length body) k))
      ∙ get_or-append body (last ∷ tail) (suc k) 0

  trim_blanks :
      (k : ℕ)
      → length front ≡ 9
      → AreBlank tail
      → k ≤ length tail
      → trim flags_line (length body + k) ≡ trim flags_line (length body)
  trim_blanks zero l b h = ap (trim flags_line) (add-zero (length body))
  trim_blanks (suc k) l b h =
      ap (trim flags_line) (add-suc (length body) k)
      ∙ trim-blank flags_line (length body + k)
          (rw (chr_in_tail k l) (get_or-AreBlank tail k b (omega arith)))
      ∙ trim_blanks k l b (omega arith)

  trim-last :
      (m : ℕ) → m ≡ length body → length front ≡ 9 → is_blank last ≡ false → trim flags_line m ≡ m
  trim-last zero e l n = unfold trim in refl
  trim-last (suc m) e l n = trim_found flags_line m (ap is_blank (chr_at m l ∙ at_last e) ∙ n)
    where
      at_last : suc m ≡ length body → get_or (body ++ last ∷ tail) (suc m) 0 ≡ last
      at_last e =
          ap (λ (i : ℕ). get_or (body ++ last ∷ tail) i 0) (e ∙ sym (add-zero (length body)))
          ∙ get_or-append body (last ∷ tail) 0 0

  rest_length : length front ≡ 9 → length flags_line - flags_offset ≡ length body + length tail
  rest_length l =
      omega
        (arith, length-append {0} front (body ++ last ∷ tail), length-append {0} body (last ∷ tail))

  trimmed :
      length front ≡ 9
      → AreBlank tail
      → is_blank last ≡ false
      → trim flags_line (length flags_line - flags_offset) ≡ length body
  trimmed l b n =
      ap (trim flags_line) (rest_length l)
      ∙ trim_blanks (length tail) l b (le_refl _)
      ∙ trim-last (length body) refl l n

flags_of-suc :
    (front body : Bytes) (last : ℕ) (tail : Bytes) (n : ℕ)
    → length front ≡ 9
    → length body ≡ suc n
    → flags_of (front ++ (body ++ last ∷ tail)) (suc n) ≡ some (body ++ last ∷ [])
flags_of-suc front body last tail n l e = ap some (
    ap (take (suc n + 1)) (
      ap (λ (i : ℕ). drop i (front ++ (body ++ last ∷ tail))) (sym l)
      ∙ drop-append front (body ++ last ∷ tail)
      ∙ sym (append_assoc body (last ∷ []) tail))
    ∙ ap (λ (i : ℕ). take i ((body ++ last ∷ []) ++ tail)) (whole e)
    ∙ take-append (body ++ last ∷ []) tail)
  where
    whole : length body ≡ suc n → suc n + 1 ≡ length (body ++ last ∷ [])
    whole e = omega (arith, length-append {0} body (last ∷ []))

-- The flags up to `last`; those of a single byte are refused.
abbrev pub kept_flags : Bytes → ℕ → Option Bytes
kept_flags [] last = none
kept_flags (c ∷ cs) last = some ((c ∷ cs) ++ last ∷ [])

-- On a line of nine bytes ("VmFlags: "), flags that end in a byte `last` that is no blank, and then
-- blanks, `vm_flags` gets the flags without the blanks; if the flags are that byte alone, the line
-- is refused.
vm_flags_text_lem :
    (front body : Bytes) (last : ℕ) (tail : Bytes)
    → length front ≡ 9
    → is_blank last ≡ false
    → AreBlank tail
    → vm_flags_text (front ++ (body ++ last ∷ tail)) ≡ kept_flags body last
unfolding vm_flags_text
vm_flags_text_lem front body last tail l n b =
    ap (flags_of (front ++ (body ++ last ∷ tail))) (trimmed front body last tail l b n)
    ∙ of_length body (length body) refl
  where
    of_length :
        (body : Bytes) (m : ℕ)
        → length body ≡ m
        → flags_of (front ++ (body ++ last ∷ tail)) m ≡ kept_flags body last
    of_length [] zero e = refl
    of_length (c ∷ cs) zero e = absurd (omega arith)
    of_length [] (suc m) e = absurd (omega arith)
    of_length (c ∷ cs) (suc m) e = flags_of-suc front (c ∷ cs) last tail m l e
