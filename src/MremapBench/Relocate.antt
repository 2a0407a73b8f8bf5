-- ===== src/MremapBench/Relocate.antt =====
-- random/mremap_bench.c: a single run, `time_relocate`, and `remap`, which ends the program if it fails.
-- The calls of `munmap` whose results the source does not test succeed.
pub mod Laws
pub mod Time
use mm_exper.Base.{ℕ, zero, suc, ◌+◌, ◌-◌, ◌*◌, ◌^◌, Bool, true, false, not, ◌&&◌, ◌==◌, ltb}
use mm_exper.Base.{if◌then◌else◌, Option, none, some, List, [], ◌∷◌, ◌++◌}
use mm_exper.Base.Word.{u64, add64, sub64}
use mm_exper.MremapBench.{Call, unmap, Mapped, mmap_aligned}

-- The mapping that is moved and the one that its place is found with.
pub data Region : Type 0 where
  source target : Region

-- `struct relocate_struct` but for its output; `relocate` is MREMAP_MUST_RELOCATE_ANON among the
-- additional flags.
pub record Reloc : Type 0 where
  pub relocate : Bool
  pub nohuge : Bool
  pub old_len : ℕ
  pub new_len : ℕ
  pub pop_len : ℕ
  pub align : ℕ

pub record Timespec : Type 0 where
  pub tv_sec : ℕ
  pub tv_nsec : ℕ

-- The kernel: for each region the address that the first `mmap` returns, or none, and whether the second
-- succeeds; whether the two `madvise` succeed; whether the `munmap` succeeds that is tested; whether
-- `mremap` returns its target; what the clock shows in front of it and behind it; and what the bytes
-- at the target are, given those of the source.
pub record Kernel : Type 0 where
  pub mmap : Region → Option ℕ
  pub map_fixed : Region → Bool
  pub advise_nohuge : Bool
  pub munmap : Bool
  pub mremap : Bool → Bool
  pub t_start : Timespec
  pub t_end : Timespec
  pub moved : (ℕ → ℕ) → ℕ → ℕ
  pub advise_pageout : Bool

-- A call that maps or unmaps, or `mremap` of a range to a range.
pub data Step : Type 0 where
  call : Call → Step
  move : ℕ → ℕ → ℕ → ℕ → Step

abbrev pub calls : List Call → List Step
calls [] = []
calls (c ∷ cs) = call c ∷ calls cs

-- A region or a null pointer, and what was done.
pub record Made : Type 0 where
  pub ptr : Option ℕ
  pub steps : List Step

-- How a run ends: without a source, without a place, with a move that fails; with a wrong byte or
-- without the pages being reclaimed, the target being mapped; or with the time.
pub data Outcome : Type 0 where
  no_source no_target not_moved : Outcome
  wrong_byte not_paged_out : ℕ → Outcome
  timed : ℕ → Outcome

pub record Result : Type 0 where
  pub outcome : Outcome
  pub steps : List Step

abbrev pub on_mapped : Option ℕ → List Step → (ℕ → Made) → Made
on_mapped none steps next = record { ptr = none; steps = steps }
on_mapped (some ptr) steps next =
    let made = next ptr in record { ptr = made.ptr; steps = steps ++ made.steps }

unfoldable pub map_and_populate_region : Kernel → Reloc → Made
map_and_populate_region kernel reloc =
    let m = mmap_aligned (kernel.mmap source) (kernel.map_fixed source) reloc.old_len reloc.align in
    on_mapped m.ptr (calls m.calls) (λ ptr.
      if reloc.nohuge && not kernel.advise_nohuge
      then record { ptr = none; steps = call (unmap ptr reloc.old_len) ∷ [] }
      else record { ptr = some ptr; steps = [] })

-- What `memset` leaves, in a mapping that is zero at first.
abbrev pub populated : Reloc → ℕ → ℕ
populated reloc i = if ltb i reloc.pop_len then b'x' else 0

unfoldable pub reserve_region : Kernel → Reloc → Made
reserve_region kernel reloc =
    let m = mmap_aligned (kernel.mmap target) (kernel.map_fixed target) reloc.new_len reloc.align in
    on_mapped m.ptr (calls m.calls) (λ ptr.
      if kernel.munmap
      then record { ptr = some ptr; steps = call (unmap ptr reloc.new_len) ∷ [] }
      else record { ptr = none; steps = [] })

-- The loop of `check_move`, with `left` bytes left.
unfoldable pub check_loop : (ℕ → ℕ) → ℕ → ℕ → Bool
check_loop dst zero i = true
check_loop dst (suc left) i = let rest = check_loop dst left (suc i) in (dst i == b'x') && rest

unfoldable pub check_move : Reloc → (ℕ → ℕ) → Bool
check_move reloc dst = check_loop dst reloc.pop_len 0

-- `tv_sec * NS_PER_SEC + tv_nsec`.
abbrev pub nanoseconds : Timespec → ℕ
nanoseconds t = add64 (u64 (t.tv_sec * 10 ^ 9)) t.tv_nsec

-- Behind the move.
unfoldable pub after_move : Kernel → Reloc → ℕ → Result
after_move kernel reloc dst =
    if not (check_move reloc (kernel.moved (populated reloc)))
    then record { outcome = wrong_byte dst; steps = [] }
    else if not kernel.advise_pageout
    then record { outcome = not_paged_out dst; steps = [] }
    else record {
      outcome = timed (sub64 (nanoseconds kernel.t_end) (nanoseconds kernel.t_start));
      steps = call (unmap dst reloc.new_len) ∷ [];
    }

-- Behind both regions.
unfoldable pub with_regions : Kernel → Reloc → ℕ → Option ℕ → Result
with_regions kernel reloc src none = record {
  outcome = no_target;
  steps = call (unmap src reloc.old_len) ∷ [];
}
with_regions kernel reloc src (some dst) =
    if kernel.mremap reloc.relocate
    then (let after = after_move kernel reloc dst in
        record {
          outcome = after.outcome;
          steps = move src reloc.old_len dst reloc.new_len ∷ after.steps;
        })
    else record { outcome = not_moved; steps = call (unmap src reloc.old_len) ∷ [] }

unfoldable pub with_source : Kernel → Reloc → Option ℕ → Result
with_source kernel reloc none = record { outcome = no_source; steps = [] }
with_source kernel reloc (some src) =
    let reserved = reserve_region kernel reloc in
    let rest = with_regions kernel reloc src reserved.ptr in
    record { outcome = rest.outcome; steps = reserved.steps ++ rest.steps }

unfoldable pub time_relocate : Kernel → Reloc → Result
time_relocate kernel reloc =
    let made = map_and_populate_region kernel reloc in
    let rest = with_source kernel reloc made.ptr in
    record { outcome = rest.outcome; steps = made.steps ++ rest.steps }

-- The time that `remap` returns, or none where it ends the program.
abbrev pub time_of_run : Outcome → Option ℕ
time_of_run (timed ns) = some ns
time_of_run _ = none

unfoldable pub remap : Kernel → ℕ → Bool → ℕ → Bool → ℕ → Option ℕ
remap kernel len relocate pop_len nohuge align =
    let reloc : Reloc = record {
      relocate = relocate;
      nohuge = nohuge;
      old_len = len;
      new_len = len;
      pop_len = pop_len;
      align = align;
    } in
    time_of_run (time_relocate kernel reloc).outcome
