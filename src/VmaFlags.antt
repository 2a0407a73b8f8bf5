-- ===== src/VmaFlags.antt =====
-- random/shared.c: the flags of a VMA by name, and their lookup through /dev/vmaflags.
pub mod Loop
pub mod Lookup
use Prim.Native.String.{String}
use mm_exper.Base.{ℕ, Bool, true, false, not, ◌==◌, bit_and, if◌then◌else◌, List, [], ◌∷◌, ◌++◌}
use mm_exper.Base.Word.{bit_not}
use mm_exper.Base.Output.{Output, text, dec}

-- `struct flag_pair`.
pub record FlagPair : Type 0 where
  pub flag : ℕ
  pub name : String

abbrev pair : ℕ → String → FlagPair
pair flag name = record { flag = flag; name = name }

abbrev pub flags_map : List FlagPair
flags_map =
    pair 0x00000001 "VM_READ"
    ∷ pair 0x00000002 "VM_WRITE"
    ∷ pair 0x00000004 "VM_EXEC"
    ∷ pair 0x00000008 "VM_SHARED"
    ∷ pair 0x00000010 "VM_MAYREAD"
    ∷ pair 0x00000020 "VM_MAYWRITE"
    ∷ pair 0x00000040 "VM_MAYEXEC"
    ∷ pair 0x00000080 "VM_MAYSHARE"
    ∷ pair 0x00000100 "VM_GROWSDOWN"
    ∷ pair 0x00000200 "VM_UFFD_MISSING"
    ∷ pair 0x00000400 "VM_PFNMAP"
    ∷ pair 0x00001000 "VM_UFFD_WP"
    ∷ pair 0x00002000 "VM_LOCKED"
    ∷ pair 0x00004000 "VM_IO"
    ∷ pair 0x00008000 "VM_SEQ_READ"
    ∷ pair 0x00010000 "VM_RAND_READ"
    ∷ pair 0x00020000 "VM_DONTCOPY"
    ∷ pair 0x00040000 "VM_DONTEXPAND"
    ∷ pair 0x00080000 "VM_LOCKONFAULT"
    ∷ pair 0x00100000 "VM_ACCOUNT"
    ∷ pair 0x00200000 "VM_NORESERVE"
    ∷ pair 0x00400000 "VM_HUGETLB"
    ∷ pair 0x00800000 "VM_SYNC"
    ∷ pair 0x02000000 "VM_WIPEONFORK"
    ∷ pair 0x04000000 "VM_DONTDUMP"
    ∷ pair 0x08000000 "VM_SOFTDIRTY"
    ∷ pair 0x10000000 "VM_MIXEDMAP"
    ∷ pair 0x20000000 "VM_HUGEPAGE"
    ∷ pair 0x40000000 "VM_NOHUGEPAGE"
    ∷ pair 0x80000000 "VM_MERGEABLE"
    ∷ pair 0x00000020 "VM_PKEY_SHIFT"
    ∷ pair 0x100000000 "VM_PKEY_BIT0"
    ∷ pair 0x200000000 "VM_PKEY_BIT1"
    ∷ pair 0x400000000 "VM_PKEY_BIT2"
    ∷ pair 0x800000000 "VM_PKEY_BIT3"
    ∷ pair 0x1000000000 "VM_PKEY_BIT4"
    ∷ pair 0x01000000 "VM_PAT"
    ∷ pair 0x2000000000 "VM_UFFD_MINOR"
    ∷ []

-- The loop over the table from `flags` on: the pairs that are printed, and the flags that remain.
unfoldable pub print_loop : List FlagPair → ℕ → List FlagPair × ℕ
print_loop [] flags = ([], flags)
print_loop (p ∷ ps) flags = elim (bit_and flags p.flag == p.flag) [
  | false ↦ print_loop ps flags
  | true ↦
      let (printed, rest) = print_loop ps (bit_and flags (bit_not p.flag)) in (p ∷ printed, rest)
]

abbrev names_of : List FlagPair → Output
names_of [] = []
names_of (p ∷ ps) = text p.name ∷ text " " ∷ names_of ps

unfoldable pub print_vma_flags : ℕ → Output
unfolding print_loop
print_vma_flags flags =
    let (printed, rest) = print_loop flags_map flags in
    if flags == 0
    then text "VM_NONE\n" ∷ []
    else names_of printed
      ++ ((if not (rest == 0) then text "(invalid: " ∷ dec rest ∷ text " remain)" ∷ [] else [])
          ++ text "\n" ∷ [])
