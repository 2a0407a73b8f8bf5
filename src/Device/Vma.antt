-- ===== src/Device/Vma.antt =====
-- kernel/vmaflags/vmaflags.c and kernel/vmainfo/vmainfo.c: the VMA at an address.
pub mod Branches
use mm_exper.Base.{ℕ, ◌+◌, ◌-◌, ltb, if◌then◌else◌}
use mm_exper.Base.{Option, none, some, [], ◌∷◌, ◌++◌, length}
use mm_exper.Base.Text.{Bytes, codes}
use mm_exper.Base.Numerals.{hex_numeral}
use mm_exper.Device.{Buffer, Calls, written, no_address, Written, refused, with_number, stored}

-- The fields of `struct vm_area_struct` that are read.
pub record Vma : Type 0 where
  pub vm_start : ℕ
  pub vm_end : ℕ
  pub vm_flags : ℕ

abbrev pub reset : Buffer
reset = record { output_buf = []; output_buf_size = 1 }

-- The end of a write: `output_buf_size += snprintf (output_buf, 4096 - output_buf_size, ...)`.
abbrev pub printed : Buffer → ℕ → Bytes → Written
printed b size s = record {
  buffer = record {
    output_buf = stored (4096 - b.output_buf_size) s;
    output_buf_size = b.output_buf_size + length s;
  };
  off = size;
  result = written size;
}

-- `vma == NULL || start < vma->vm_start`.
abbrev pub vma_at : ℕ → Option Vma → Option Vma
vma_at start none = none
vma_at start (some vma) = if ltb start vma.vm_start then none else some vma

-- The end of a write, with the number that was read. `find_vma` gives the VMA with the lowest end above
-- an address.
unfoldable pub on_start : (Vma → Bytes) → (ℕ → Option Vma) → Bytes → ℕ → ℕ → Written
on_start format find_vma input start off = elim (vma_at start (find_vma start)) [
  | none ↦ refused reset off no_address
  | some vma ↦ printed reset (length input) (format vma)
]

abbrev pub flags_format : Vma → Bytes
flags_format vma = hex_numeral vma.vm_flags

abbrev pub info_format : Vma → Bytes
info_format vma =
    codes "start="
    ++ (hex_numeral vma.vm_start
        ++ (codes ", end="
            ++ (hex_numeral vma.vm_end ++ (codes ", flags=" ++ hex_numeral vma.vm_flags))))

unfoldable pub vmaflags_write : Calls → (ℕ → Option Vma) → Buffer → ℕ → Bytes → Written
unfolding with_number on_start
vmaflags_write calls find_vma b off input =
    with_number calls reset off input (on_start flags_format find_vma input)

unfoldable pub vmainfo_write : Calls → (ℕ → Option Vma) → Buffer → ℕ → Bytes → Written
unfolding with_number on_start
vmainfo_write calls find_vma b off input =
    with_number calls reset off input (on_start info_format find_vma input)
