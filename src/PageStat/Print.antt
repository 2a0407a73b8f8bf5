-- ===== src/PageStat/Print.antt =====
-- pagestat/pagestat.c: printing one mapping. The five static variables are a record that the
-- functions pass on; what they print is a list of pieces.
pub mod Flags
pub mod Cover
pub mod Listing
pub mod Swapped
use mm_exper.Base.{
  ℕ, zero, suc, ◌+◌, ◌-◌, Bool, true, false, not, ◌&&◌, ◌||◌, ◌==◌, ltb, if◌then◌else◌,
}
use mm_exper.Base.{Option, none, some, List, [], ◌∷◌, ◌++◌, get_or, bit_and, bit_or}
use mm_exper.Base.Word.{bit_not, invalid_value, add64}
use mm_exper.Base.Text.{Bytes, codes, str_eq, starts_with}
use mm_exper.Base.Output.{Output, text, hex, hex16, dec, str, str_or_null, print_if, outputs}
use mm_exper.Base.Proc.{Proc}
use mm_exper.PageStat.Data.{PageStat}
use mm_exper.PageStat.Entry.{
  check_bit, soft_dirty_bit, exclusive_mapped_bit, uffd_wp_bit, is_file_bit, swapped_bit,
  present_bit, pfn_mask, get_pfn, swap_type, swap_offset,
}
use mm_exper.PageStat.PageTable.{count_virt_pages}
use mm_exper.PageStat.Print.Flags.{KernelFlags, print_kpageflags}

-- `last_seen_map`, `last_seen_pfn`, `last_seen_addr`, `last_seen_index`, `seen_map_count`.
pub record Seen : Type 0 where
  pub last_map : ℕ
  pub last_pfn : ℕ
  pub last_addr : ℕ
  pub last_index : ℕ
  pub count : ℕ

-- Their initial values.
abbrev pub unseen : Seen
unseen = record { last_map = invalid_value; last_pfn = 0; last_addr = 0; last_index = 0; count = 0 }

-- "Xx " where a bit is set, and blanks where it is not.
abbrev mark : Bool → Output → Output
mark b out = if b then out else text "   " ∷ []

-- The part of a line behind the marks, for an entry with a frame.
abbrev print_frame : KernelFlags → ℕ → ℕ → ℕ → Output
print_frame kpf pfn flags count = outputs (
    (if not (flags == invalid_value) then print_kpageflags kpf flags else [])
    ∷ (text "/ " ∷ hex pfn ∷ text " " ∷ [])
    ∷ (text "/ " ∷ [])
    ∷ (if check_bit flags kpf.lru then text "LRU " ∷ [] else text "NON-LRU " ∷ [])
    ∷ (if check_bit flags kpf.active then text "ACTIVE " ∷ [] else text "INACTIVE " ∷ [])
    ∷ print_if (check_bit flags kpf.referenced) "REF "
    ∷ (if not (count == invalid_value) then text "/ " ∷ dec count ∷ [] else [])
    ∷ [])

unfoldable pub do_print_mapping : KernelFlags → ℕ → PageStat → ℕ → ℕ → Output
do_print_mapping kpf addr ps index val =
    let pfn = get_pfn val in
    let have_pfn = not (pfn == invalid_value) in
    let swapped = check_bit val swapped_bit in
    outputs (
      (if not (addr == invalid_value) then hex16 addr ∷ text ": " ∷ [] else [])
      ∷ mark (check_bit val soft_dirty_bit) (text "Ds " ∷ [])
      ∷ mark (check_bit val exclusive_mapped_bit) (text "Xm " ∷ [])
      ∷ mark (check_bit val uffd_wp_bit) (text "Uw " ∷ [])
      ∷ mark (check_bit val is_file_bit) (text "Fl " ∷ [])
      ∷ mark swapped (text "Sw " ∷ [])
      ∷ mark (check_bit val present_bit) (text "Pr " ∷ [])
      ∷ print_if (swapped || have_pfn) "/ "
      ∷ (if swapped
          then text "swap_type=["
            ∷ hex (swap_type val)
            ∷ text "] "
            ∷ text "swap_offset=["
            ∷ hex (swap_offset val)
            ∷ text "] "
            ∷ []
          else if have_pfn
          then print_frame kpf pfn (get_or ps.kpageflags index 0) (get_or ps.kpagecounts index 0)
          else [])
      ∷ (text "\n" ∷ [])
      ∷ [])

-- What `print_abbrev` and `print_mapping` put out: a call of `do_print_mapping`, or the line
-- "(… more repetitions of above)".
pub data Line : Type 0 where
  mapping : ℕ → ℕ → ℕ → Line
  repeats : ℕ → ℕ → Line

unfoldable pub render : KernelFlags → PageStat → List Line → Output
render kpf ps [] = []
render kpf ps (mapping addr index val ∷ lines) =
    do_print_mapping kpf addr ps index val ++ render kpf ps lines
render kpf ps (repeats addr n ∷ lines) =
    hex16 addr ∷ text ": (" ∷ dec n ∷ text " more repetitions of above)\n" ∷ render kpf ps lines

unfoldable pub print_abbrev : Seen → List Line
print_abbrev s =
    if s.last_map == invalid_value
    then []
    else if ltb 2 s.count
    then repeats s.last_addr (s.count - 1) ∷ []
    else if s.count == 2
    then mapping s.last_addr s.last_index
        (if s.last_pfn == invalid_value then s.last_map else bit_or s.last_map s.last_pfn)
      ∷ []
    else []

-- Whether an entry starts a new group.
unfoldable pub is_new : Seen → ℕ → Bool
is_new s val =
    not (bit_and val (bit_not pfn_mask) == s.last_map)
    || (not (get_pfn val == s.last_pfn) && not (get_pfn val == add64 s.last_pfn 1))

-- The static variables after an entry, with the count that it starts from.
abbrev pub see : ℕ → ℕ → ℕ → ℕ → Seen
see addr index val count = record {
  last_map = bit_and val (bit_not pfn_mask);
  last_pfn = get_pfn val;
  last_addr = addr;
  last_index = index;
  count = count + 1;
}

unfoldable pub print_mapping : ℕ → PageStat → ℕ → Bool → Seen → List Line × Seen
unfolding is_new print_abbrev
print_mapping addr ps index abbreviate s =
    let val = get_or ps.pagemaps index 0 in
    let new_val = is_new s val in
    let flushed = if abbreviate && new_val then print_abbrev s else [] in
    let count = if abbreviate && new_val then 0 else s.count in
    if abbreviate && not new_val
    then (flushed, see addr index val count)
    else (flushed ++ mapping addr index val ∷ [], see addr index val count)

unfoldable pub print_mapping_terminate : Seen → List Line × Seen
unfolding print_abbrev
print_mapping_terminate s =
    (print_abbrev s, record s { last_map = invalid_value; last_index = 0; last_pfn = 0; count = 0 })

unfoldable pub print_name : PageStat → Output
print_name ps =
    text "----==== "
    ∷ (elim ps.name [ none ↦ text "(anon)" | some name ↦ str name ])
    ∷ text " ====---- \n\n"
    ∷ []

unfoldable pub print_header : PageStat → Output
unfolding print_name
print_header ps = outputs (
    print_name ps
    ∷ (text "0x" ∷ hex ps.vma_start ∷ text " [vma_start]\n" ∷ [])
    ∷ (text "0x" ∷ hex ps.vma_end ∷ text " [vma_end]\n\n" ∷ [])
    ∷ (text "vm_size=[" ∷ dec ps.vm_size ∷ text "] rss=[" ∷ dec ps.rss ∷ [])
    ∷ print_if ps.rss_counted "*"
    ∷ (text "] ref=[" ∷ dec ps.referenced ∷ text "] anon=[" ∷ dec ps.anon ∷ [])
    ∷ (text "] anon_huge=[" ∷ dec ps.anon_huge ∷ text "] swap=[" ∷ dec ps.swap ∷ [])
    ∷ (text "] locked=[" ∷ dec ps.locked ∷ text "]\nvm_flags=[" ∷ str_or_null ps.vm_flags ∷ [])
    ∷ (text "] perms=[" ∷ str ps.perms ∷ text "] offset=[" ∷ dec ps.offset ∷ text "]\n\n" ∷ [])
    ∷ [])

unfoldable pub ignored_ps : Bytes → Bool
ignored_ps name =
    str_eq name (codes "[vvar]")
    || str_eq name (codes "[vdso]")
    || str_eq name (codes "[vsyscall]")
    || str_eq name (codes "[heap]")
    || str_eq name (codes "[stack]")
    || starts_with name (codes "/usr/bin")
    || starts_with name (codes "/usr/lib")
    || starts_with name (codes "/var/cache")
    || starts_with name (codes "/usr/share")

abbrev pub is_ignored : Option Bytes → Bool
is_ignored none = false
is_ignored (some name) = ignored_ps name

module _ (proc : Proc) (ps : PageStat) where
  -- The loop over the pages at page `i`, with `n` pages left.
  unfoldable pub print_pages : ℕ → ℕ → ℕ → Seen → List Line × Seen
  print_pages zero i addr s = ([], s)
  print_pages (suc n) i addr s =
      let (lines, t) = print_mapping addr ps i true s in
      let (later, u) = print_pages n (i + 1) (add64 addr proc.page_size) t in (lines ++ later, u)

  -- The loop and `print_mapping_terminate`.
  unfoldable pub print_all_pages : Seen → List Line × Seen
  print_all_pages s =
      let (lines, t) = print_pages (count_virt_pages proc ps) 0 ps.vma_start s in
      let (later, u) = print_mapping_terminate t in (lines ++ later, u)

-- What a printing function returns, puts out, and leaves in the static variables.
pub record Printed : Type 0 where
  pub result : Bool
  pub out : Output
  pub seen : Seen

module _ (proc : Proc) (kpf : KernelFlags) where
  unfoldable pub pagestat_print : Option PageStat → Seen → Printed
  pagestat_print none s = record { result = false; out = []; seen = s }
  pagestat_print (some ps) s =
      if is_ignored ps.name
      then record { result = false; out = []; seen = s }
      else (let (lines, t) = print_all_pages proc ps s in
          record { result = true; out = print_header ps ++ render kpf ps lines; seen = t })

  -- On the snapshots in front of the first null pointer, at most `max_maps`.
  unfoldable pub pagestat_print_all : List PageStat → Seen → Output × Seen
  pagestat_print_all [] s = ([], s)
  pagestat_print_all (ps ∷ pss) s =
      let p = pagestat_print (some ps) s in
      let (later, t) = pagestat_print_all pss p.seen in
      ((if p.result then p.out ++ text "\n" ∷ [] else p.out) ++ later, t)
