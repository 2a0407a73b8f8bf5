-- ===== src/Procmap/Query/Laws.antt =====
-- The result for each VMA that the page can be in.
use mm_exper.Base.{ℕ, ◌+◌, ◌*◌, ◌^◌, ◌<◌, ◌≡◌, arith}
use mm_exper.Procmap.Query.{no_merge, merge_0_1, merge_1_2, merge_all, query_ptr}

-- For three pages of a positive size from `ptr` on in an address space that does not wrap, the
-- result names the neighbours that the VMA of the middle page takes in.
query_ptr_lem :
    (p ptr : ℕ)
    → 0 < p
    → ptr + 3 * p < 2 ^ 64
    → (query_ptr p ptr (ptr + p) (ptr + 2 * p) ≡ no_merge)
      × (query_ptr p ptr ptr (ptr + 2 * p) ≡ merge_0_1)
      × (query_ptr p ptr (ptr + p) (ptr + 3 * p) ≡ merge_1_2)
      × (query_ptr p ptr ptr (ptr + 3 * p) ≡ merge_all)
unfolding query_ptr
query_ptr_lem p ptr pos fits = (ground arith, ground arith, ground arith, ground arith)
