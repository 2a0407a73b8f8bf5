-- ===== src/PageStat/Memory/Laws.antt =====
-- What a snapshot allocates is released.
use mm_exper.Base.{ℕ, ◌+◌, ◌≡◌, refl, ◌∙◌, sym, arith, Bool, true, false, inl, inr, Option-cases}
use mm_exper.Base.{Option, none, some, List, [], ◌∷◌}
use mm_exper.Base.Text.{Bytes}
use mm_exper.Base.Proc.{Proc}
use mm_exper.PageStat.Data.{PageStat, cleared}
use mm_exper.PageStat.Smaps.{Locals, get_smap_header_fields, get_smap_other_fields}
use mm_exper.PageStat.PageTable.{get_pagetable_fields}
use mm_exper.PageStat.Snapshot.{
  Search, found, gone, find_header, finish, fill, on_search, get_pagestat_snapshot,
}
use mm_exper.PageStat.Memory.{
  Block, stat, name, vm_flags, allocate, is_some, when, pagestat_free, flags_stored, times,
  is_positive, Taken, with_tables, with_fields, with_header, on_found, snapshot_events,
}
use mm_exper.PageStat.Memory.Counts.{
  one, allocations, releases, allocations-append, releases-append, allocations-times,
  releases-times, if_one, releases-pagestat_free, allocations-pagestat_free, lost, stored-lost,
  named_block, free_taken,
}
use mm_exper.PageStat.Memory.Fields.{
  KeptIn, or_false, header_flags, get_pagetable_fields-KeptIn, flags_behind, flags_in,
  fields_pointers,
}

module _ (b : Block) (proc : Proc) (locals : Locals) (pid : Bytes) where
  -- What the events of a call have left to release, but for flags that no pointer leads to.
  abbrev owed : Taken → ℕ
  owed (events, ps) = releases b events + releases b (free_taken ps)

  with_tables-owed :
      (named flagged : Bool) (o : Option PageStat)
      → ((ps : PageStat)
          → o ≡ some ps
          → (is_some ps.name ≡ named) × (is_some ps.vm_flags ≡ flagged))
      → let taken = with_tables proc locals pid named flagged o in
        allocations b taken.0 + one b stat + if_one b named name + if_one b flagged vm_flags
        ≡ owed taken
  with_tables-owed named flagged none h = omega (
    arith,
    allocations-pagestat_free b named flagged true,
    releases-pagestat_free b named flagged true,
  )
  with_tables-owed named flagged (some ps) h =
      let (n, f) = h ps refl in
      rw (sym n, sym f)
        (omega (arith, releases-pagestat_free b (is_some ps.name) (is_some ps.vm_flags) true))

  with_fields-owed :
      (named : Bool) (n : ℕ) (o : Option PageStat)
      → ((ms : PageStat)
          → o ≡ some ms
          → (is_some ms.name ≡ named) × (is_some ms.vm_flags ≡ is_positive n))
      → let taken = with_fields proc locals pid named n o in
        allocations b taken.0 + one b stat + if_one b named name ≡ owed taken + lost b n
  with_fields-owed named n none h = omega (
    arith,
    allocations-append b (times n (allocate vm_flags)) (pagestat_free named (is_positive n) false),
    releases-append b (times n (allocate vm_flags)) (pagestat_free named (is_positive n) false),
    allocations-times b n vm_flags,
    releases-times b n vm_flags,
    allocations-pagestat_free b named (is_positive n) false,
    releases-pagestat_free b named (is_positive n) false,
    stored-lost b n,
  )
  with_fields-owed named n (some ms) h =
      let rest =
        with_tables proc locals pid named (is_positive n) (get_pagetable_fields proc pid ms) in
      omega (
        arith,
        allocations-append b (times n (allocate vm_flags)) rest.0,
        releases-append b (times n (allocate vm_flags)) rest.0,
        allocations-times b n vm_flags,
        releases-times b n vm_flags,
        stored-lost b n,
        with_tables-owed named (is_positive n) (get_pagetable_fields proc pid ms) kept,
      )
    where
      kept :
          (ps : PageStat)
          → get_pagetable_fields proc pid ms ≡ some ps
          → (is_some ps.name ≡ named) × (is_some ps.vm_flags ≡ is_positive n)
      kept ps e =
          let (n₁, f₁) = h ms refl in
          let k : KeptIn ms false (some ps) = rw e at (get_pagetable_fields-KeptIn proc pid ms) in
          (k.0 ∙ n₁, k.1 ∙ or_false (is_some ms.vm_flags) ∙ f₁)

  with_header-owed :
      (o : Option PageStat) (lines : List Bytes)
      → ((ms : PageStat) → o ≡ some ms → ms.vm_flags ≡ none)
      → let taken = with_header proc locals pid o lines in
        allocations b taken.0 + one b stat ≡ owed taken + lost b (flags_behind locals o lines)
  with_header-owed none lines h = omega (
    arith,
    allocations-pagestat_free b false false false,
    releases-pagestat_free b false false false,
  )
  with_header-owed (some ms) lines h =
      let n = flags_stored locals locals.first ms lines in
      let rest =
        with_fields proc locals pid (is_some ms.name) n (get_smap_other_fields locals ms lines).0 in
      omega (
        arith,
        allocations-append b (when (is_some ms.name) (allocate name ∷ [])) rest.0,
        releases-append b (when (is_some ms.name) (allocate name ∷ [])) rest.0,
        named_block b (is_some ms.name),
        with_fields-owed (is_some ms.name) n (get_smap_other_fields locals ms lines).0
            (fields_pointers locals ms lines (h ms refl)),
      )

  on_found-owed :
      (search : Search)
      → let taken = on_found proc locals pid search in
        allocations b taken.0 ≡ owed taken + lost b (flags_in locals search)
  unfolding on_found
  on_found-owed (gone rest) = omega arith
  on_found-owed (found from to line lines) = omega (
    arith,
    with_header-owed (get_smap_header_fields (cleared from to) line) lines
        (header_flags from to line),
  )

  -- The snapshot that the events come with is the one of the model of the whole function.
  fields-taken :
      (named : Bool) (n : ℕ) (t : Option PageStat × List Bytes)
      → (with_fields proc locals pid named n t.0).1 ≡ (finish proc locals pid t).0
  unfolding finish
  fields-taken named n (none, lines) = refl
  fields-taken named n (some ms, lines) = elim (Option-cases (get_pagetable_fields proc pid ms)) [
    | inl e ↦ rw e refl
    | inr (ps, e) ↦ rw e refl
  ]

  header-taken :
      (o : Option PageStat) (lines : List Bytes)
      → (with_header proc locals pid o lines).1 ≡ (fill proc locals pid o lines).0
  unfolding fill
  header-taken none lines = refl
  header-taken (some ms) lines = fields-taken _ _ (get_smap_other_fields locals ms lines)

  found-taken :
      (search : Search) → (on_found proc locals pid search).1 ≡ (on_search proc locals pid search).0
  unfolding on_found on_search
  found-taken (gone rest) = refl
  found-taken (found from to line lines) =
      header-taken (get_smap_header_fields (cleared from to) line) lines

  -- For each block that a snapshot consists of, and whatever is in the files of /proc: the events come with
  -- what get_pagestat_snapshot returns, and in them, with those of pagestat_free of the snapshot if
  -- there is one, the block is released as often as it is allocated, but for one block for each
  -- VmFlags line that is stored over another.
  pub snapshot_events-released :
      (lines : List Bytes) (vaddr : ℕ)
      → let (events, taken) = snapshot_events proc locals pid lines vaddr in
        (taken ≡ (get_pagestat_snapshot proc locals pid lines vaddr).0)
        × (allocations b events
            ≡ releases b events
              + releases b (free_taken taken)
              + lost b (flags_in locals (find_header locals vaddr locals.first_word lines)))
  unfolding snapshot_events get_pagestat_snapshot
  snapshot_events-released lines vaddr =
      let search = find_header locals vaddr locals.first_word lines in
      (found-taken search, on_found-owed search)
