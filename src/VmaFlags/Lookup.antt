-- ===== src/VmaFlags/Lookup.antt =====
-- random/shared.c: `lookup_vma_flags`, a client of /dev/vmaflags.
pub mod Laws
use mm_exper.Base.{ℕ, Bool, Option, none, some, List, [], ◌∷◌, ◌++◌, if◌then◌else◌}
use mm_exper.Base.Text.{Bytes, skip_spaces, scan_hex}
use mm_exper.Device.Documented.{request}
use mm_exper.Base.Run.{Run, print, exit}
use mm_exper.Device.{Buffer, Calls, device_read}
use mm_exper.Device.Vma.{Vma, vmaflags_write}
use mm_exper.VmaFlags.{print_vma_flags}

-- What the client depends on: whether the first `fopen` gives a file, whether `fprintf` to it succeeds,
-- how many bytes a file reads at once, and what the local `flags` holds at first.
pub record Client : Type 0 where
  pub opened : Bool
  pub printed : Bool
  pub block : ℕ
  pub flags : ℕ

-- `fscanf (fp, "%lx", &flags)` of a file: EOF, or the local behind it, which it leaves where the input
-- does not match.
abbrev pub scan_or_keep : ℕ → Bytes → Option (ℕ × Bytes) → Option ℕ
scan_or_keep flags [] scanned = none
scan_or_keep flags (c ∷ cs) none = some flags
scan_or_keep flags (c ∷ cs) (some (n, rest)) = some n

unfoldable pub fscanf_hex : ℕ → Bytes → Option ℕ
fscanf_hex flags input = scan_or_keep flags (skip_spaces input) (scan_hex input)

abbrev pub print_scanned : Option ℕ → Run {0} Unit
print_scanned none = exit
print_scanned (some flags) = print (print_vma_flags flags) tt

-- The buffer of the device behind the request: `fflush` writes it, whatever the device answers.
abbrev pub asked : Calls → (ℕ → Option Vma) → Buffer → ℕ → Buffer
asked calls find_vma b addr = (vmaflags_write calls find_vma b 0 (request addr)).buffer

-- The second `fopen` is taken to succeed, as the first did.
unfoldable pub lookup_vma_flags : Client → Calls → (ℕ → Option Vma) → Buffer → ℕ → Run {0} Unit
unfolding fscanf_hex
lookup_vma_flags client calls find_vma b addr =
    if client.opened
    then if client.printed
      then print_scanned
          (fscanf_hex client.flags (device_read calls (asked calls find_vma b addr) client.block 0))
      else exit
    else exit
