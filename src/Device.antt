-- ===== src/Device.antt =====
-- The miscellaneous devices of the modules under kernel/: what they share, which is the static buffer
-- and the calls of the kernel.
pub mod Vma
pub mod Exper
pub mod Documented
use mm_exper.Base.{ℕ, ◌+◌, ◌-◌, ◌≡◌, refl, Option, none, some, List, [], ◌∷◌, ◌++◌, length, take}
use mm_exper.Base.Text.{Bytes}

-- `output_buf` as a C string, and `output_buf_size`. The size is at most one more than the length of the
-- string, so the bytes behind its final zero are never read.
pub record Buffer : Type 0 where
  pub output_buf : Bytes
  pub output_buf_size : ℕ

-- The calls of the kernel: `simple_write_to_buffer` of a buffer's size, an offset and what was written, as
-- the bytes that it copies or none if its result is not positive; `simple_read_from_buffer` of a size,
-- an offset and the bytes that can be read; `sscanf` with "%lu".
pub record Calls : Type 0 where
  pub write_to_buffer : ℕ → ℕ → Bytes → Option Bytes
  pub read_from_buffer : ℕ → ℕ → Bytes → Bytes
  pub scan_ulong : Bytes → Option ℕ

-- What a write returns: the size, -EINVAL or -ENXIO.
pub data Result : Type 0 where
  written : ℕ → Result
  invalid : Result
  no_address : Result

-- The buffer behind a write, the offset, and what the write returns.
pub record Written : Type 0 where
  pub buffer : Buffer
  pub off : ℕ
  pub result : Result

-- `simple_read_from_buffer (out, size, off, output_buf, output_buf_size)`.
unfoldable pub device_read : Calls → Buffer → ℕ → ℕ → Bytes
device_read calls b size off =
    calls.read_from_buffer size off (take b.output_buf_size (b.output_buf ++ 0 ∷ []))

-- `snprintf` into a buffer of a size: what is stored, and the length that it returns.
abbrev pub stored : ℕ → Bytes → Bytes
stored size s = take (size - 1) s

abbrev pub refused : Buffer → ℕ → Result → Written
refused b off result = record { buffer = b; off = off; result = result }

-- The start of a write: the input is copied into a buffer of 255 bytes, which moves the offset on, and
-- a number is read from it. Where this fails, the static buffer is `b`.
unfoldable pub with_number : Calls → Buffer → ℕ → Bytes → (ℕ → ℕ → Written) → Written
with_number calls b off input next = elim (calls.write_to_buffer 254 off input) [
  | none ↦ refused b off invalid
  | some buf ↦ elim (calls.scan_ulong buf) [
    | none ↦ refused b (off + length buf) invalid
    | some n ↦ next n (off + length buf)
  ]
]

pub with_number_lem :
    (calls : Calls) (b : Buffer) (off : ℕ) {input buf : Bytes} {n : ℕ} (next : ℕ → ℕ → Written)
    → calls.write_to_buffer 254 off input ≡ some buf
    → calls.scan_ulong buf ≡ some n
    → with_number calls b off input next ≡ next n (off + length buf)
unfolding with_number
with_number_lem calls b off next copied scanned = rw (copied, scanned, with_number) refl
