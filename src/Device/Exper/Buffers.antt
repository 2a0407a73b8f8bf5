-- ===== src/Device/Exper/Buffers.antt =====
-- The text that describes the state of a page's buffers.
use Prim.Native.String.{String}
use mathlib.Core.List.{append_assoc, append-nil}
use mm_exper.Base.{ℕ, ◌+◌, ◌/◌, ◌%◌, ◌^◌, ◌≤◌, ◌≡◌, sym, ap, ◌∙◌, arith}
use mm_exper.Base.{not, ◌==◌, if◌then◌else◌, Bool-cases, inl, inr, bit_and}
use mm_exper.Base.{List, [], ◌∷◌, ◌++◌, length, length-append, take-all}
use mm_exper.Base.Masks.{bit_and-two_pow, two_pow_pos}
use mm_exper.Base.Text.{Bytes, codes}
use mm_exper.Device.Exper.{BufferBits, check_flag, check_flags, letters, read_buffer_head}

-- The names of the bits that are set, in order.
unfoldable pub shown : ℕ → List (ℕ × String) → Bytes
shown b_state [] = []
shown b_state ((flag, str) ∷ fs) =
    let rest = shown b_state fs in if b_state / 2 ^ flag % 2 == 1 then codes str ++ rest else rest

-- The bytes of all names.
abbrev total : List (ℕ × String) → ℕ
total [] = 0
total ((flag, str) ∷ fs) = length (codes str) + total fs

test_bit : (k a : ℕ) → not (bit_and a (2 ^ k) == 0) ≡ (a / 2 ^ k % 2 == 1)
test_bit k a = ground (arith, bit_and-two_pow k a, two_pow_pos k)

check_flags-shown :
    (b_state : ℕ) (s : Bytes) (fs : List (ℕ × String))
    → total fs ≤ 254
    → check_flags b_state s fs ≡ s ++ shown b_state fs
unfolding check_flags check_flag shown
check_flags-shown b_state s [] h = sym (append-nil s)
check_flags-shown b_state s ((flag, str) ∷ fs) h = elim (Bool-cases (b_state / 2 ^ flag % 2 == 1)) [
  | inl set ↦
      rw
        (
          check_flags,
          check_flag,
          test_bit flag b_state,
          set,
          take-all 254 (codes str) (omega arith),
        )
        (check_flags-shown b_state (s ++ codes str) fs (omega arith)
          ∙ append_assoc s (codes str) (shown b_state fs))
  | inr clear ↦
      rw (check_flags, shown, check_flag, test_bit flag b_state, clear)
        (check_flags-shown b_state s fs (omega arith))
]

length-shown : (b_state : ℕ) (fs : List (ℕ × String)) → length (shown b_state fs) ≤ total fs
unfolding shown
length-shown b_state [] = omega arith
length-shown b_state ((flag, str) ∷ fs) =
    ground (arith, length-shown b_state fs, length-append (codes str) (shown b_state fs))

pub bracketed :
    (bh : BufferBits) (b_state : ℕ)
    → read_buffer_head bh b_state ≡ codes "[" ++ (shown b_state (letters bh) ++ codes "]")
unfolding read_buffer_head
bracketed bh b_state =
    ap (λ (s : Bytes). s ++ codes "]")
      (check_flags-shown b_state (codes "[") (letters bh) (omega arith))

length-bracketed : (t : Bytes) → length (codes "[" ++ (t ++ codes "]")) ≡ length t + 2
length-bracketed t = omega (arith, length-append t (codes "]"))

-- For each state of a buffer head, read_buffer_head leaves the names of exactly the flags that are set,
-- in order and between brackets, in at most 24 bytes: no `strncat` cuts a name, and the text
-- and its final zero fit into the 255 bytes of the buffer.
pub read_buffer_head-shown :
    (bh : BufferBits) (b_state : ℕ)
    → (read_buffer_head bh b_state ≡ codes "[" ++ (shown b_state (letters bh) ++ codes "]"))
      × (length (read_buffer_head bh b_state) ≤ 24)
read_buffer_head-shown bh b_state = (
  bracketed bh b_state,
  omega (
    arith,
    ap length (bracketed bh b_state),
    length-bracketed (shown b_state (letters bh)),
    length-shown b_state (letters bh),
  ),
)
