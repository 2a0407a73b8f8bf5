-- ===== src/Device/Exper.antt =====
-- kernel/exper/exper.c: the devices /dev/refcount and /dev/pagebuffers, which describe the page with a
-- frame number. `exper_init` and its messages are left out.
pub mod Branches
pub mod Client
pub mod Laws
pub mod Buffers
pub mod Both
use Prim.Native.String.{String}
use mm_exper.Base.{ℕ, ◌+◌, ◌-◌, ◌*◌, ◌^◌, Bool, not, ◌==◌, suc, if◌then◌else◌, bit_and}
use mm_exper.Base.{Option, none, some, List, [], ◌∷◌, ◌++◌, length, take}
use mm_exper.Base.Int.{ℤ}
use mm_exper.Base.Text.{Bytes, codes}
use mm_exper.Base.Numerals.{int_numeral}
use mm_exper.Device.{Buffer, Calls, Written, written, invalid, refused, with_number, stored}

-- What is read of a page: `page_ref_count`, and the `b_state` of its first buffer head if it has one.
pub record Page : Type 0 where
  pub refcount : ℤ
  pub b_state : Option ℕ

-- The bits of <linux/buffer_head.h>.
pub record BufferBits : Type 0 where
  pub uptodate : ℕ
  pub dirty : ℕ
  pub lock : ℕ
  pub req : ℕ
  pub mapped : ℕ
  pub new : ℕ
  pub async_read : ℕ
  pub async_write : ℕ
  pub delay : ℕ
  pub boundary : ℕ
  pub write_eio : ℕ
  pub unwritten : ℕ
  pub quiet : ℕ
  pub meta : ℕ
  pub prio : ℕ
  pub defer_completion : ℕ

-- Both static buffers at first: `"0"` and `"[]"`.
abbrev pub refcount_buf : Buffer
refcount_buf = record { output_buf = codes "0"; output_buf_size = 2 }

abbrev pub pagebuffers_buf : Buffer
pagebuffers_buf = record { output_buf = codes "[]"; output_buf_size = 3 }

-- The end of a write, with the frame number that was read: a page that does not exist is refused.
unfoldable pub on_pfn : (ℕ → Option Page) → (Page → Buffer) → Buffer → Bytes → ℕ → ℕ → Written
on_pfn pfn_to_page describe b input pfn off = elim (pfn_to_page pfn) [
  | none ↦ refused b off invalid
  | some pg ↦ record { buffer = describe pg; off = length input; result = written (length input) }
]

abbrev pub refcount_of : Page → Buffer
refcount_of pg = record {
  output_buf = stored 255 (int_numeral pg.refcount);
  output_buf_size = length (int_numeral pg.refcount) + 1;
}

unfoldable pub refcount_write : Calls → (ℕ → Option Page) → Buffer → ℕ → Bytes → Written
unfolding with_number on_pfn
refcount_write calls pfn_to_page b off input =
    with_number calls b off input (on_pfn pfn_to_page refcount_of b input)

-- `strncat (s, t, n)`.
abbrev pub strncat : Bytes → Bytes → ℕ → Bytes
strncat s t n = s ++ take n t

-- `CHECK_FLAG`; the bits of the header are below 32, where `1U << flag` is the power of two.
unfoldable pub check_flag : ℕ → Bytes → ℕ × String → Bytes
check_flag b_state s (flag, str) =
    if not (bit_and b_state (2 ^ flag) == 0) then strncat s (codes str) 254 else s

unfoldable pub check_flags : ℕ → Bytes → List (ℕ × String) → Bytes
unfolding check_flag
check_flags b_state s [] = s
check_flags b_state s (f ∷ fs) = check_flags b_state (check_flag b_state s f) fs

abbrev pub letters : BufferBits → List (ℕ × String)
letters bh =
    (bh.uptodate, "U")
    ∷ (bh.dirty, "D")
    ∷ (bh.lock, "L")
    ∷ (bh.req, "R")
    ∷ (bh.mapped, "M")
    ∷ (bh.new, "N")
    ∷ (bh.async_read, "Ar")
    ∷ (bh.async_write, "Aw")
    ∷ (bh.delay, "De")
    ∷ (bh.boundary, "B")
    ∷ (bh.write_eio, "Ew")
    ∷ (bh.unwritten, "Un")
    ∷ (bh.quiet, "Q")
    ∷ (bh.meta, "Me")
    ∷ (bh.prio, "!")
    ∷ (bh.defer_completion, "@")
    ∷ []

unfoldable pub read_buffer_head : BufferBits → ℕ → Bytes
unfolding check_flags
read_buffer_head bh b_state = strncat (check_flags b_state (codes "[") (letters bh)) (codes "]") 254

-- With buffers the size is that of the text without its final zero; without, that with it.
abbrev pub pagebuffers_of : BufferBits → Page → Buffer
pagebuffers_of bh pg = elim pg.b_state [
  | none ↦ pagebuffers_buf
  | some b_state ↦
      let text = read_buffer_head bh b_state in
      record { output_buf = text; output_buf_size = length text }
]

unfoldable pub pagebuffers_write :
    BufferBits → Calls → (ℕ → Option Page) → Buffer → ℕ → Bytes → Written
unfolding with_number on_pfn
pagebuffers_write bh calls pfn_to_page b off input =
    with_number calls b off input (on_pfn pfn_to_page (pagebuffers_of bh) b input)
