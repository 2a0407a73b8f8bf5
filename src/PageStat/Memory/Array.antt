-- ===== src/PageStat/Memory/Array.antt =====
-- The array of pagestat_snapshot_all: no snapshot allocates or releases it, nor does pagestat_free_all.
use mm_exper.Base.{ℕ, zero, suc, ◌≡◌, Option-cases, inl, inr, refl, arith, Bool, true, false}
use mm_exper.Base.{Option, none, some, List, [], ◌∷◌, ◌++◌}
use mm_exper.Base.Word.{invalid_value}
use mm_exper.Base.Text.{Bytes}
use mm_exper.Base.Proc.{Proc}
use mm_exper.PageStat.Data.{PageStat, cleared}
use mm_exper.PageStat.Smaps.{Locals, get_smap_header_fields, get_smap_other_fields}
use mm_exper.PageStat.PageTable.{get_pagetable_fields}
use mm_exper.PageStat.Snapshot.{Search, found, gone, find_header, get_pagestat_snapshot}
use mm_exper.PageStat.Memory.{
  array, stat, name, vm_flags, Event, allocate, is_some, when, pagestat_free, free_snapshot,
  flags_stored, times, is_positive, allocate_tables, with_tables, with_fields, with_header,
  on_found, snapshot_events, pagestat_free_all, all_loop,
}
use mm_exper.PageStat.Memory.Counts.{
  one, allocations, releases, allocations-append, releases-append,
}

abbrev pub NoArray : List Event → Type 0
NoArray es = (allocations array es ≡ 0) × (releases array es ≡ 0)

pub append-NoArray : (es fs : List Event) → NoArray es → NoArray fs → NoArray (es ++ fs)
append-NoArray es fs h k = (
  omega (arith, allocations-append array es fs, h.0, k.0),
  omega (arith, releases-append array es fs, h.1, k.1),
)

times-NoArray : (n : ℕ) → NoArray (times n (allocate vm_flags))
unfolding one
times-NoArray zero = (refl, refl)
times-NoArray (suc n) =
    append-NoArray (allocate vm_flags ∷ []) (times n (allocate vm_flags)) (refl, refl)
      (times-NoArray n)

pagestat_free-NoArray : (named flagged tables : Bool) → NoArray (pagestat_free named flagged tables)
unfolding pagestat_free one
pagestat_free-NoArray true true true = (refl, refl)
pagestat_free-NoArray true true false = (refl, refl)
pagestat_free-NoArray true false true = (refl, refl)
pagestat_free-NoArray true false false = (refl, refl)
pagestat_free-NoArray false true true = (refl, refl)
pagestat_free-NoArray false true false = (refl, refl)
pagestat_free-NoArray false false true = (refl, refl)
pagestat_free-NoArray false false false = (refl, refl)

pub free_all-NoArray : (pss : List PageStat) → NoArray (pagestat_free_all pss)
unfolding pagestat_free_all
free_all-NoArray [] = (refl, refl)
free_all-NoArray (ps ∷ pss) =
    append-NoArray (free_snapshot ps) (pagestat_free_all pss)
      (pagestat_free-NoArray (is_some ps.name) (is_some ps.vm_flags) true) (free_all-NoArray pss)

module _ (proc : Proc) (locals : Locals) (pid : Bytes) where
  with_tables-NoArray :
      (named flagged : Bool) (o : Option PageStat)
      → NoArray (with_tables proc locals pid named flagged o).0
  unfolding one
  with_tables-NoArray named flagged none =
      append-NoArray (allocate_tables proc locals pid) (pagestat_free named flagged true)
        (refl, refl) (pagestat_free-NoArray named flagged true)
  with_tables-NoArray named flagged (some ps) = (refl, refl)

  with_fields-NoArray :
      (named : Bool) (n : ℕ) (o : Option PageStat)
      → NoArray (with_fields proc locals pid named n o).0
  with_fields-NoArray named n none =
      append-NoArray (times n (allocate vm_flags)) (pagestat_free named (is_positive n) false)
        (times-NoArray n) (pagestat_free-NoArray named (is_positive n) false)
  with_fields-NoArray named n (some ms) =
      let tables =
        with_tables proc locals pid named (is_positive n) (get_pagetable_fields proc pid ms) in
      append-NoArray (times n (allocate vm_flags)) tables.0 (times-NoArray n)
        (with_tables-NoArray named (is_positive n) (get_pagetable_fields proc pid ms))

  named-NoArray : (named : Bool) → NoArray (when named (allocate name ∷ []))
  unfolding one
  named-NoArray true = (refl, refl)
  named-NoArray false = (refl, refl)

  with_header-NoArray :
      (o : Option PageStat) (lines : List Bytes) → NoArray (with_header proc locals pid o lines).0
  with_header-NoArray none lines = pagestat_free-NoArray false false false
  with_header-NoArray (some ms) lines =
      let n = flags_stored locals locals.first ms lines in
      let fields = (get_smap_other_fields locals ms lines).0 in
      append-NoArray (when (is_some ms.name) (allocate name ∷ []))
        (with_fields proc locals pid (is_some ms.name) n fields).0 (named-NoArray (is_some ms.name))
        (with_fields-NoArray (is_some ms.name) n fields)

  on_found-NoArray : (search : Search) → NoArray (on_found proc locals pid search).0
  unfolding on_found one
  on_found-NoArray (gone rest) = (refl, refl)
  on_found-NoArray (found from to line lines) =
      let header = get_smap_header_fields (cleared from to) line in
      append-NoArray (allocate stat ∷ []) (with_header proc locals pid header lines).0 (refl, refl)
        (with_header-NoArray header lines)

  snapshot_events-NoArray :
      (lines : List Bytes) (vaddr : ℕ) → NoArray (snapshot_events proc locals pid lines vaddr).0
  unfolding snapshot_events
  snapshot_events-NoArray lines vaddr =
      on_found-NoArray (find_header locals vaddr locals.first_word lines)

  pub all_loop-NoArray :
      (n : ℕ) (pss : List PageStat) (lines : List Bytes)
      → NoArray (all_loop proc locals pid n pss lines).0
  unfolding all_loop
  all_loop-NoArray zero pss lines = free_all-NoArray pss
  all_loop-NoArray (suc n) pss lines =
      let now = snapshot_events proc locals pid lines invalid_value in
      let left = (get_pagestat_snapshot proc locals pid lines invalid_value).1 in
      elim (Option-cases now.1) [
        | inl e ↦ rw (all_loop, e) (snapshot_events-NoArray lines invalid_value)
        | inr (ps, e) ↦
            rw (all_loop, e)
              (append-NoArray now.0 (all_loop proc locals pid n (pss ++ ps ∷ []) left).0
                (snapshot_events-NoArray lines invalid_value)
                (all_loop-NoArray n (pss ++ ps ∷ []) left))
      ]
