-- ===== src/PageStat/Print/Flags.antt =====
-- pagestat/pagestat.c: `print_kpageflags`. The bit numbers below 32 are those of the system's
-- <linux/kernel-page-flags.h>, which is not part of the repository: they are a parameter.
use mm_exper.Base.{ℕ, not, ◌&&◌, ◌∷◌, []}
use mm_exper.Base.Output.{Output, print_if, outputs}
use mm_exper.PageStat.Entry.{check_bit}

-- The `KPF_*` numbers of the system header.
pub record KernelFlags : Type 0 where
  pub locked : ℕ
  pub error : ℕ
  pub referenced : ℕ
  pub uptodate : ℕ
  pub dirty : ℕ
  pub lru : ℕ
  pub active : ℕ
  pub slab : ℕ
  pub writeback : ℕ
  pub reclaim : ℕ
  pub buddy : ℕ
  pub mmap : ℕ
  pub anon : ℕ
  pub swapcache : ℕ
  pub swapbacked : ℕ
  pub compound_head : ℕ
  pub compound_tail : ℕ
  pub huge : ℕ
  pub unevictable : ℕ
  pub hwpoison : ℕ
  pub nopage : ℕ
  pub ksm : ℕ
  pub thp : ℕ
  pub offline : ℕ
  pub zero_page : ℕ
  pub idle : ℕ
  pub pgtable : ℕ

-- The numbers that the source defines itself.
abbrev pub kpf_reserved : ℕ
kpf_reserved = 32

abbrev pub kpf_mlocked : ℕ
kpf_mlocked = 33

abbrev pub kpf_mappedtodisk : ℕ
kpf_mappedtodisk = 34

abbrev pub kpf_private : ℕ
kpf_private = 35

abbrev pub kpf_private_2 : ℕ
kpf_private_2 = 36

abbrev pub kpf_owner_private : ℕ
kpf_owner_private = 37

abbrev pub kpf_arch : ℕ
kpf_arch = 38

abbrev pub kpf_uncached : ℕ
kpf_uncached = 39

abbrev pub kpf_softdirty : ℕ
kpf_softdirty = 40

abbrev pub kpf_arch_2 : ℕ
kpf_arch_2 = 41

unfoldable pub print_kpageflags : KernelFlags → ℕ → Output
print_kpageflags kpf flags =
    let mapped_to_disk = check_bit flags kpf_mappedtodisk in
    let anon = check_bit flags kpf.anon in
    outputs (
      print_if (check_bit flags kpf.anon) "Ano "
      ∷ print_if (mapped_to_disk && anon) "AnE "
      ∷ print_if (check_bit flags kpf.buddy) "Bud "
      ∷ print_if (check_bit flags kpf.compound_head) "CmH "
      ∷ print_if (check_bit flags kpf.compound_tail) "CmT "
      ∷ print_if (check_bit flags kpf.dirty) "Drt "
      ∷ print_if (check_bit flags kpf.error) "Err "
      ∷ print_if (check_bit flags kpf.huge) "Hug "
      ∷ print_if (check_bit flags kpf.hwpoison) "xxH "
      ∷ print_if (check_bit flags kpf.idle) "Idl "
      ∷ print_if (check_bit flags kpf.ksm) "KSM "
      ∷ print_if (check_bit flags kpf.locked) "Lok "
      ∷ print_if (check_bit flags kpf.lru) "LRU "
      ∷ print_if (mapped_to_disk && not anon) "Mdk "
      ∷ print_if (check_bit flags kpf.mmap) "MMp "
      ∷ print_if (check_bit flags kpf.nopage) "NoP "
      ∷ print_if (check_bit flags kpf.offline) "Off "
      ∷ print_if (check_bit flags kpf.pgtable) "Tbl "
      ∷ print_if (check_bit flags kpf.reclaim) "Rcm "
      ∷ print_if (check_bit flags kpf.slab) "Slb "
      ∷ print_if (check_bit flags kpf.swapbacked) "SwB "
      ∷ print_if (check_bit flags kpf.swapcache) "SwC "
      ∷ print_if (check_bit flags kpf.thp) "THP "
      ∷ print_if (check_bit flags kpf.unevictable) "Une "
      ∷ print_if (check_bit flags kpf.uptodate) "Upd "
      ∷ print_if (check_bit flags kpf.writeback) "WrB "
      ∷ print_if (check_bit flags kpf.zero_page) "Zpg "
      ∷ print_if (check_bit flags kpf_reserved) "Rsv "
      ∷ print_if (check_bit flags kpf_mlocked) "Mlk "
      ∷ print_if (check_bit flags kpf_private) "Prv "
      ∷ print_if (check_bit flags kpf_private_2) "Pv2 "
      ∷ print_if (check_bit flags kpf_owner_private) "OwP "
      ∷ print_if (check_bit flags kpf_arch) "Ach "
      ∷ print_if (check_bit flags kpf_uncached) "Unc "
      ∷ print_if (check_bit flags kpf_softdirty) "DtS "
      ∷ print_if (check_bit flags kpf_arch_2) "Ar2 "
      ∷ [])
