-- ===== src/PageStat/Memory.antt =====
-- pagestat/pagestat.c: the blocks that a snapshot allocates and `pagestat_free` and `pagestat_free_all`
-- release. Each allocation succeeds. The line that `getline` allocates is left out.
pub mod Counts
pub mod Fields
pub mod Laws
pub mod Array
pub mod All
use mm_exper.Base.{ℕ, zero, suc, Bool, true, false, not, ◌&&◌, ◌||◌, if◌then◌else◌}
use mm_exper.Base.{Option, none, some, List, [], ◌∷◌, ◌++◌}
use mm_exper.Base.Word.{invalid_value}
use mm_exper.Base.Text.{Bytes, codes, str_eq}
use mm_exper.Base.Proc.{Proc}
use mm_exper.PageStat.Data.{PageStat, cleared, max_maps}
use mm_exper.PageStat.Smaps.{
  Locals, Scratch, fail, stop, next, round, get_smap_header_fields, get_smap_other_fields,
}
use mm_exper.PageStat.PageTable.{get_pagetable_fields}
use mm_exper.PageStat.Snapshot.{Search, found, gone, find_header, get_pagestat_snapshot}

-- The array of `pagestat_snapshot_all`, a `struct pagestat`, and what its fields point to.
pub data Block : Type 0 where
  array stat name vm_flags pagemaps kpagecounts kpageflags : Block

pub data Event : Type 0 where
  allocate release : Block → Event

abbrev pub is_some {ℓ} : {A : Type ℓ} → Option A → Bool
is_some none = false
is_some (some a) = true

abbrev pub when : Bool → List Event → List Event
when b events = if b then events else []

-- `pagestat_free` of a struct whose pointers are null or not; the three arrays of the page tables are
-- allocated together.
unfoldable pub pagestat_free : Bool → Bool → Bool → List Event
pagestat_free named flagged tables =
    when named (release name ∷ [])
    ++ (when flagged (release vm_flags ∷ [])
        ++ (when tables (release pagemaps ∷ release kpagecounts ∷ release kpageflags ∷ [])
            ++ release stat ∷ []))

-- A snapshot that is complete.
abbrev pub free_snapshot : PageStat → List Event
free_snapshot ps = pagestat_free (is_some ps.name) (is_some ps.vm_flags) true

-- Whether the chain of comparisons in `get_smap_other_fields` comes to the one with "VmFlags:" and that
-- one holds.
abbrev pub is_vm_flags : Bytes → Bool
is_vm_flags key =
    not (str_eq key (codes "Size:"))
    && (not (str_eq key (codes "Rss:"))
        && (not (str_eq key (codes "Referenced:"))
            && (not (str_eq key (codes "Anonymous:"))
                && (not (str_eq key (codes "AnonHugePages:"))
                    && (not (str_eq key (codes "Swap:"))
                        && (not (str_eq key (codes "Locked:"))
                            && str_eq key (codes "VmFlags:")))))))

-- The number of allocations in the loop of `get_smap_other_fields`: one in each round that stores flags.
unfoldable pub flags_stored : Locals → Scratch → PageStat → List Bytes → ℕ
flags_stored locals start ms [] = 0
flags_stored locals start ms (line ∷ lines) = elim (round start ms line) [
  | fail ↦ 0
  | stop ↦ 0
  | next s ms' ↦
      let rest = flags_stored locals (locals.kept s) ms' lines in
      if is_vm_flags s.key then suc rest else rest
]

abbrev pub times : ℕ → Event → List Event
times zero e = []
times (suc n) e = e ∷ times n e

abbrev pub is_positive : ℕ → Bool
is_positive zero = false
is_positive (suc n) = true

-- The events of a call, and the snapshot that it returns.
abbrev pub Taken : Type 0
Taken = List Event × Option PageStat

module _ (proc : Proc) (locals : Locals) (pid : Bytes) where
  abbrev pub allocate_tables : List Event
  allocate_tables = allocate pagemaps ∷ allocate kpagecounts ∷ allocate kpageflags ∷ []

  -- `get_pagetable_fields`, and `pagestat_free` where it fails.
  abbrev pub with_tables : Bool → Bool → Option PageStat → Taken
  with_tables named flagged none = (allocate_tables ++ pagestat_free named flagged true, none)
  with_tables named flagged (some ps) = (allocate_tables, some ps)

  -- `get_smap_other_fields`, with the number of flags stored.
  abbrev pub with_fields : Bool → ℕ → Option PageStat → Taken
  with_fields named n none =
      (times n (allocate vm_flags) ++ pagestat_free named (is_positive n) false, none)
  with_fields named n (some ms) =
      let (events, ps) = with_tables named (is_positive n) (get_pagetable_fields proc pid ms) in
      (times n (allocate vm_flags) ++ events, ps)

  -- `get_smap_header_fields`.
  abbrev pub with_header : Option PageStat → List Bytes → Taken
  with_header none lines = (pagestat_free false false false, none)
  with_header (some ms) lines =
      let n = flags_stored locals locals.first ms lines in
      let (events, ps) =
        with_fields (is_some ms.name) n (get_smap_other_fields locals ms lines).0 in
      (when (is_some ms.name) (allocate name ∷ []) ++ events, ps)

  -- `get_pagestat_snapshot` behind its search.
  unfoldable pub on_found : Search → Taken
  on_found (gone rest) = ([], none)
  on_found (found from to line lines) =
      let (events, ps) = with_header (get_smap_header_fields (cleared from to) line) lines in
      (allocate stat ∷ events, ps)

  unfoldable pub snapshot_events : List Bytes → ℕ → Taken
  snapshot_events lines vaddr = on_found (find_header locals vaddr locals.first_word lines)

-- `pagestat_free_all` of the snapshots that are stored; the array itself is not released.
unfoldable pub pagestat_free_all : List PageStat → List Event
pagestat_free_all [] = []
pagestat_free_all (ps ∷ pss) = free_snapshot ps ++ pagestat_free_all pss

module _ (proc : Proc) (locals : Locals) (pid : Bytes) where
  -- The loop of `pagestat_snapshot_all`, with `n` places left and `pss` stored.
  unfoldable pub all_loop : ℕ → List PageStat → List Bytes → List Event × Option (List PageStat)
  all_loop zero pss lines = (pagestat_free_all pss, none)
  all_loop (suc n) pss lines =
      let (events, taken) = snapshot_events proc locals pid lines invalid_value in
      let left = (get_pagestat_snapshot proc locals pid lines invalid_value).1 in
      elim taken [
        | none ↦ (events, some pss)
        | some ps ↦ let (rest, all) = all_loop n (pss ++ ps ∷ []) left in (events ++ rest, all)
      ]

  -- `pagestat_snapshot_all` on a file that is open.
  unfoldable pub snapshot_all_events : List Bytes → List Event × Option (List PageStat)
  snapshot_all_events lines =
      let (events, all) = all_loop max_maps [] lines in (allocate array ∷ events, all)
