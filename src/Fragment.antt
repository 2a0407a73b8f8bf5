-- ===== src/Fragment.antt =====
-- kernel/fragment/fragment.c: a module that takes all free blocks of 2 ^ 9 pages, gives half of each back
-- and asks for virtually mapped memory; its exit frees what is left.
pub mod Laws
use mathlib.Core.Option
use mm_exper.Base.{ℕ, Bool, true, false, zero, suc, ◌+◌, ◌*◌, ◌^◌, ◌==◌, if◌then◌else◌, length}
use mm_exper.Base.{Option, none, some, List, [], ◌∷◌, ◌++◌}
use mm_exper.Base.Output.{Output, text, dec, print_if}
use Prim.Native.String.{String}

-- The allocator: the block that the `n`th `alloc_pages` returns, by the number of its first page, or none
-- for a null pointer; and the address that the `i`th `vmalloc_huge` returns, 0 for a null pointer.
pub record Kernel : Type 0 where
  pub alloc_pages : ℕ → Option ℕ
  pub vmalloc_huge : ℕ → ℕ
  pub page_size : ℕ

-- A call that succeeded: of `alloc_pages` for 2 ^ 9 pages, `split_page`, `__free_pages` of 2 ^ 8 pages,
-- `vmalloc_huge` and `vfree`.
pub data Call : Type 0 where
  alloc_pages split_page free_pages vmalloc_huge vfree : ℕ → Call

abbrev pub num_vmallocs : ℕ
num_vmallocs = 100

-- The static variables, the calls and the messages.
pub record Loaded : Type 0 where
  pub pages : List ℕ
  pub vaddrs : List ℕ
  pub calls : List Call
  pub out : Output

-- `&page[1 << 8]`.
abbrev pub buddy : ℕ → ℕ
buddy page = page + 2 ^ 8

-- The `while` loop, in at most `fuel` rounds: `pages`, to which each block is added in front.
unfoldable pub alloc_loop : Kernel → ℕ → ℕ → List ℕ → List Call → Option (List ℕ × List Call)
alloc_loop kernel zero n pages calls = none
alloc_loop kernel (suc fuel) n pages calls = elim (kernel.alloc_pages n) [
  | none ↦ some (pages, calls)
  | some page ↦ alloc_loop kernel fuel (suc n) (page ∷ pages) (calls ++ alloc_pages page ∷ [])
]

-- The loop that splits each block and frees its second half.
unfoldable pub split_loop : List ℕ → List Call
split_loop [] = []
split_loop (page ∷ pages) = split_page page ∷ free_pages (buddy page) ∷ split_loop pages

abbrev pub zeros : ℕ → List ℕ
zeros zero = []
zeros (suc n) = 0 ∷ zeros n

-- A part of `vaddrs`, the calls that filled it, and whether the loop ended early.
pub record Filled : Type 0 where
  pub vaddrs : List ℕ
  pub calls : List Call
  pub unable : Bool

-- The loop over `i`, with `left` entries left. The array is 0 at first.
unfoldable pub vmalloc_loop : Kernel → ℕ → ℕ → Filled
vmalloc_loop kernel zero i = record { vaddrs = []; calls = []; unable = false }
vmalloc_loop kernel (suc left) i =
    let vaddr = kernel.vmalloc_huge i in
    let rest = vmalloc_loop kernel left (suc i) in
    if vaddr == 0
    then record { vaddrs = zeros (suc left); calls = []; unable = true }
    else record rest { vaddrs = vaddr ∷ rest.vaddrs; calls = vmalloc_huge vaddr ∷ rest.calls }

abbrev pub pages_message : ℕ → Output
pages_message count =
    text "IVG: " ∷ dec count ∷ text " order-8 pages freed, or " ∷ dec count ∷ text " MiB\n" ∷ []

abbrev pub size_message : Kernel → String → ℕ → Output
size_message kernel what count =
    text what ∷ dec count ∷ text " pages of size " ∷ dec (2 ^ 9 * kernel.page_size) ∷ text "\n" ∷ []

-- Behind the first loop.
unfoldable pub after_alloc : Kernel → List ℕ × List Call → Loaded
after_alloc kernel (pages, calls) =
    let count = length pages in
    let filled = vmalloc_loop kernel num_vmallocs 0 in
    record {
      pages = pages;
      vaddrs = filled.vaddrs;
      calls = calls ++ split_loop pages ++ filled.calls;
      out =
          text "IVG: "
            ∷ dec count
            ∷ text " order-9 pages allocated, or "
            ∷ dec (count * 2)
            ∷ text " MiB\n"
            ∷ pages_message count
          ++ print_if filled.unable "IVG: Unable to vmalloc!\n"
          ++ size_message kernel "IVG: vmalloc()'d " (length filled.calls);
    }

unfoldable pub fragment_init : Kernel → ℕ → Option Loaded
fragment_init kernel fuel = Option.map (after_alloc kernel) (alloc_loop kernel fuel 0 [] [])

-- The loop over `pages` in the exit.
unfoldable pub free_loop : List ℕ → List Call
free_loop [] = []
free_loop (page ∷ pages) = free_pages page ∷ free_loop pages

-- The loop over `vaddrs`.
unfoldable pub vfree_loop : List ℕ → List Call
vfree_loop [] = []
vfree_loop (vaddr ∷ vaddrs) =
    let rest = vfree_loop vaddrs in if vaddr == 0 then [] else vfree vaddr ∷ rest

-- The calls and the messages of the exit.
unfoldable pub fragment_exit : Kernel → Loaded → List Call × Output
fragment_exit kernel m =
    let freed = vfree_loop m.vaddrs in
    (
      free_loop m.pages ++ freed,
      pages_message (length m.pages) ++ size_message kernel "IVG: vfreed()'d " (length freed),
    )
