-- ===== src/Device/Vma/Branches.antt =====
-- The branches of a write to /dev/vmaflags that `sscanf` lets through.
use mm_exper.Base.{ℕ, ◌+◌, ◌≡◌, refl, ◌∙◌, Option, none, some, length}
use mm_exper.Base.Text.{Bytes}
use mm_exper.Device.{Buffer, Calls, no_address, refused, with_number_lem}
use mm_exper.Device.Vma.{Vma, vma_at, reset, printed, on_start, flags_format, vmaflags_write}

module _ (calls : Calls) (find_vma : ℕ → Option Vma) (b : Buffer) (off : ℕ) {input text : Bytes}
    {start : ℕ} (copied : calls.write_to_buffer 254 off input ≡ some text)
    (scanned : calls.scan_ulong text ≡ some start) where
  pub vmaflags_write-found :
      {vma : Vma}
      → vma_at start (find_vma start) ≡ some vma
      → vmaflags_write calls find_vma b off input ≡ printed reset (length input) (flags_format vma)
  unfolding vmaflags_write
  vmaflags_write-found e =
      with_number_lem calls reset off (on_start flags_format find_vma input) copied scanned
      ∙ rw (e, on_start) refl

  pub vmaflags_write-missing :
      vma_at start (find_vma start) ≡ none
      → vmaflags_write calls find_vma b off input ≡ refused reset (off + length text) no_address
  unfolding vmaflags_write
  vmaflags_write-missing e =
      with_number_lem calls reset off (on_start flags_format find_vma input) copied scanned
      ∙ rw (e, on_start) refl
