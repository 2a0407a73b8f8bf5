-- ===== src/ReadPageflags/Print.antt =====
-- read-pageflags/read-pageflags.c: printing the flags of a page. `EXTENDED_MAP_DATA` is not defined.
pub mod Laws
use mm_exper.Base.{ℕ, Bool, true, false, ◌==◌, if◌then◌else◌}
use mm_exper.Base.{Option, none, some, List, [], ◌∷◌, ◌++◌, take}
use mm_exper.Base.Int.{ℤ, pos, negsuc, is_minus_one}
use mm_exper.Base.Word.{invalid_value}
use mm_exper.Base.Text.{Bytes}
use mm_exper.Base.Output.{Output, text, dec, int, pointer, str}
use mm_exper.Base.Proc.{Proc}
use mm_exper.Base.Run.{Run, End, exited, returned, then_run, print, exit}
use mm_exper.PageStat.Print.Flags.{KernelFlags}
use mm_exper.ReadPageflags.Words.{extract_pfn, read_pagemap, read_kpageflags, read_mapcount}
use mm_exper.ReadPageflags.Maps.{MapData, read_mapdata}
use mm_exper.ReadPageflags.Flags.{print_kpageflags, print_pagemap_flags}

-- What a device does with a frame number: it is not there, the number cannot be written, nothing can
-- be read, or it replies.
pub data Reply {ℓ} (A : Type ℓ) : Type ℓ where
  absent : Reply A
  not_written : Reply A
  not_read : Reply A
  reply : A → Reply A

-- The devices /dev/refcount and /dev/pagebuffers of the kernel module, for a frame number: what
-- `fscanf` stores in `ret`, and the bytes that `fread` returns.
pub record Devices : Type 0 where
  pub refcount : ℕ → Reply ℤ
  pub pagebuffers : ℕ → Reply Bytes

unfoldable pub get_refcount : Devices → ℕ → Run ℤ
get_refcount dev pfn = elim (dev.refcount pfn) [
  | absent ↦ print [] (negsuc 0)
  | not_written ↦ exit
  | not_read ↦ exit
  | reply n ↦ print [] n
]

-- The bytes of a buffer up to its first zero.
abbrev pub c_string : Bytes → Bytes
c_string [] = []
c_string (c ∷ cs) = if c == 0 then [] else c ∷ c_string cs

-- A buffer of 255 bytes. The zero behind 255 bytes read, which the source writes past the end of it, is
-- taken to be written.
abbrev pub buffers_text : Bytes → Run {0} Unit
buffers_text [] = exit
buffers_text (c ∷ cs) =
    print (text "page_buffers=" ∷ str (c_string (take 255 (c ∷ cs))) ∷ text " " ∷ []) tt

unfoldable pub print_page_buffers : Devices → ℕ → Run {0} Unit
print_page_buffers dev pfn = elim (dev.pagebuffers pfn) [
  | absent ↦ print [] tt
  | not_written ↦ exit
  | not_read ↦ exit
  | reply buf ↦ buffers_text buf
]

abbrev print_map_data : MapData → Output
print_map_data fields = text "[" ∷ str fields.perms ∷ text "] " ∷ []

abbrev pub print_fields : Option MapData → Output
print_fields none = []
print_fields (some fields) = print_map_data fields

-- The end of a line: " [%s]\n" and what stands in front of it.
abbrev pub closing : Output → Bytes → Output
closing reason descr = reason ++ text " [" ∷ str descr ∷ text "]\n" ∷ []

abbrev print_refcount : ℤ → Output
print_refcount n = if is_minus_one n then [] else text "refcount=" ∷ int n ∷ text " " ∷ []

abbrev print_count : ℕ → Output
print_count n =
    if n == invalid_value
    then text "mapcount=(failed) " ∷ []
    else text "mapcount=" ∷ dec n ∷ text " " ∷ []

-- From the reference count on, which the two functions have in common.
unfoldable pub print_frame : KernelFlags → Devices → ℕ → ℕ → ℕ → Bytes → Run {0} Unit
print_frame kpf dev pfn kpageflags mapcount descr =
    let rest = print (print_count mapcount ++ closing (print_kpageflags kpf kpageflags) descr) tt in
    let buffers : ℤ → Run {0} Unit = λ refcount.
      then_run {0, 0} (print (print_refcount refcount) tt)
        (λ u. then_run {0, 0} (print_page_buffers dev pfn) (λ u. rest)) in
    then_run {0, 0} (get_refcount dev pfn) buffers

module _ (proc : Proc) (kpf : KernelFlags) (dev : Devices) where
  unfoldable pub print_flags_phys : ℕ → Bytes → Run {0} Unit
  print_flags_phys pfn descr =
      if pfn == invalid_value
      then print (closing (text "(not present)" ∷ []) descr) tt
      else if pfn == 0
      then print (closing (text "(cannot retrieve PFN)" ∷ []) descr) tt
      else then_run {0, 0} (print (text "              : [    ] [     ] pfn=" ∷ dec pfn ∷ []) tt)
          (λ u.
            if read_kpageflags proc pfn == invalid_value
            then print (closing (text "(cannot retrieve kpageflags)" ∷ []) descr) tt
            else print_frame kpf dev pfn (read_kpageflags proc pfn) (read_mapcount proc pfn) descr)

  -- `print_flags_virt_precalc` from the test of `kpageflags` on, from that of `pfn`, and from that of
  -- `pagemap`.
  unfoldable pub with_kpageflags : ℕ → ℕ → ℕ → Bytes → Run Bool
  with_kpageflags pfn kpageflags mapcount descr =
      if kpageflags == invalid_value
      then print (closing (text "(cannot retrieve kpageflags)" ∷ []) descr) false
      else then_run {0, 0} (print_frame kpf dev pfn kpageflags mapcount descr) (λ u. print [] true)

  unfoldable pub with_pfn : ℕ → ℕ → ℕ → Bytes → Run Bool
  with_pfn pfn kpageflags mapcount descr =
      if pfn == invalid_value
      then print (closing (text "(not present)" ∷ []) descr) true
      else if pfn == 0
      then print (closing (text "(cannot retrieve PFN)" ∷ []) descr) false
      else then_run {0, 0} (print (text "pfn=" ∷ dec pfn ∷ text ": " ∷ []) tt)
          (λ u. with_kpageflags pfn kpageflags mapcount descr)

  unfoldable pub with_pagemap : ℕ → ℕ → ℕ → ℕ → Bytes → Run Bool
  with_pagemap pagemap pfn kpageflags mapcount descr =
      if pagemap == invalid_value
      then print (closing (text "(invalid pagemap)" ∷ []) descr) false
      else then_run {0, 0} (print (print_pagemap_flags pagemap) tt)
          (λ u. with_pfn pfn kpageflags mapcount descr)

  unfoldable pub print_flags_virt_precalc : ℕ → ℕ → ℕ → ℕ → ℕ → Option MapData → Bytes → Run Bool
  print_flags_virt_precalc ptr pagemap pfn kpageflags mapcount mapfields descr =
      then_run {0, 0} (print ((pointer ptr ∷ text ": " ∷ []) ++ print_fields mapfields) tt)
        (λ u. with_pagemap pagemap pfn kpageflags mapcount descr)

  -- `gotfields ? &mapfields : NULL`.
  abbrev pub fields_if : Bool × Option MapData → Option MapData
  fields_if (true, fields) = fields
  fields_if (false, fields) = none

  -- From the pagemap entry on. `pfn == INVALID_VALUE || 0` is the test of the first alone.
  unfoldable pub print_flags_at : ℕ → ℕ → Option MapData → Bytes → Run Bool
  print_flags_at ptr pagemap fields descr =
      let pfn = extract_pfn pagemap in
      let kpageflags = read_kpageflags proc pfn in
      let mapcount = read_mapcount proc pfn in
      let line = print_flags_virt_precalc ptr in
      if pagemap == invalid_value
      then line invalid_value invalid_value invalid_value invalid_value fields descr
      else if pfn == invalid_value
      then line pagemap pfn invalid_value invalid_value fields descr
      else if kpageflags == invalid_value
      then line pagemap pfn invalid_value invalid_value fields descr
      else if mapcount == invalid_value
      then line pagemap pfn kpageflags invalid_value fields descr
      else line pagemap pfn kpageflags mapcount fields descr

  -- `kept` and `held` are those of `read_mapdata`.
  unfoldable pub print_flags_virt : (Bytes → Bytes) → Bytes → ℕ → Bytes → Run Bool
  unfolding print_flags_at
  print_flags_virt kept held ptr descr =
      print_flags_at ptr (read_pagemap proc ptr) (fields_if (read_mapdata proc kept held ptr)) descr
