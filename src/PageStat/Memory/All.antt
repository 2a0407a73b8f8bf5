-- ===== src/PageStat/Memory/All.antt =====
-- What pagestat_snapshot_all allocates, and pagestat_free_all releases.
use mm_exper.Base.{ℕ, zero, suc, ◌+◌, ◌≡◌, refl, ap, ◌∙◌, sym, arith, true, inl, inr, Option-cases}
use mm_exper.Base.{Option, none, some, List, [], ◌∷◌, ◌++◌}
use mm_exper.Base.Text.{Bytes}
use mm_exper.Base.Proc.{Proc}
use mm_exper.PageStat.Data.{PageStat, max_maps}
use mm_exper.PageStat.Smaps.{Locals}
use mm_exper.PageStat.Snapshot.{find_header, get_pagestat_snapshot, snapshot_loop}
use mm_exper.Base.Word.{invalid_value}
use mm_exper.PageStat.Memory.{
  Block, array, Event, is_some, free_snapshot, snapshot_events, pagestat_free_all, all_loop,
  snapshot_all_events,
}
use mm_exper.PageStat.Memory.Counts.{
  one, allocations, releases, allocations-append, releases-append, allocations-pagestat_free, lost,
  free_taken,
}
use mm_exper.PageStat.Memory.Fields.{flags_in}
use mm_exper.PageStat.Memory.Array.{NoArray, free_all-NoArray, all_loop-NoArray}
use mm_exper.PageStat.Memory.Laws.{snapshot_events-released}

-- What is left to `pagestat_free_all`.
abbrev pub left_to_free : Option (List PageStat) → List Event
left_to_free none = []
left_to_free (some pss) = pagestat_free_all pss

module _ (b : Block) (proc : Proc) (locals : Locals) (pid : Bytes) where
  -- The flags that are stored over others in a loop over snapshots.
  unfoldable pub all_lost : ℕ → List Bytes → ℕ
  all_lost zero lines = 0
  all_lost (suc n) lines =
      let rest = all_lost n (get_pagestat_snapshot proc locals pid lines invalid_value).1 in
      lost b (flags_in locals (find_header locals invalid_value locals.first_word lines))
      + (elim (snapshot_events proc locals pid lines invalid_value).1 [ none ↦ 0 | some ps ↦ rest ])

  free_all-append :
      (pss : List PageStat) (ps : PageStat)
      → releases b (pagestat_free_all (pss ++ ps ∷ []))
        ≡ releases b (pagestat_free_all pss) + releases b (free_snapshot ps)
  unfolding pagestat_free_all
  free_all-append [] ps = releases-append b (free_snapshot ps) [] ∙ omega arith
  free_all-append (qs ∷ pss) ps = omega (
    arith,
    releases-append b (free_snapshot qs) (pagestat_free_all (pss ++ ps ∷ [])),
    releases-append b (free_snapshot qs) (pagestat_free_all pss),
    free_all-append pss ps,
  )

  allocations-free_all : (pss : List PageStat) → allocations b (pagestat_free_all pss) ≡ 0
  unfolding pagestat_free_all
  allocations-free_all [] = refl
  allocations-free_all (ps ∷ pss) = omega (
    arith,
    allocations-append b (free_snapshot ps) (pagestat_free_all pss),
    allocations-pagestat_free b (is_some ps.name) (is_some ps.vm_flags) true,
    allocations-free_all pss,
  )

  module _ (n : ℕ) (pss : List PageStat) (lines : List Bytes) where
    left : List Bytes
    left = (get_pagestat_snapshot proc locals pid lines invalid_value).1

    events_now : List Event
    events_now = (snapshot_events proc locals pid lines invalid_value).0

    lost_now : ℕ
    lost_now = lost b (flags_in locals (find_header locals invalid_value locals.first_word lines))

    now_count :
        (o : Option PageStat)
        → (snapshot_events proc locals pid lines invalid_value).1 ≡ o
        → allocations b events_now ≡ releases b events_now + releases b (free_taken o) + lost_now
    unfolding events_now lost_now
    now_count o e =
        (snapshot_events-released b proc locals pid lines invalid_value).1
        ∙ ap (λ (p : Option PageStat). releases b events_now + releases b (free_taken p) + lost_now)
            e

    loop_none :
        (snapshot_events proc locals pid lines invalid_value).1 ≡ none
        → (all_loop proc locals pid (suc n) pss lines ≡ (events_now, some pss))
          × (all_lost (suc n) lines ≡ lost_now + 0)
    unfolding all_loop all_lost events_now lost_now
    loop_none e = (rw (all_loop, e) refl, rw (all_lost, e) refl)

    loop_some :
        (ps : PageStat)
        → (snapshot_events proc locals pid lines invalid_value).1 ≡ some ps
        → (all_loop proc locals pid (suc n) pss lines ≡ (
            let (rest, all) = all_loop proc locals pid n (pss ++ ps ∷ []) left in
            (events_now ++ rest, all)))
          × (all_lost (suc n) lines ≡ lost_now + all_lost n left)
    unfolding all_loop all_lost events_now lost_now left
    loop_some ps e = (rw (all_loop, e) refl, rw (all_lost, e) refl)

    stored_none :
        (get_pagestat_snapshot proc locals pid lines invalid_value).0 ≡ none
        → snapshot_loop proc locals pid (suc n) pss lines ≡ some pss
    unfolding snapshot_loop
    stored_none e = rw (snapshot_loop, e) refl

    stored_some :
        (ps : PageStat)
        → (get_pagestat_snapshot proc locals pid lines invalid_value).0 ≡ some ps
        → snapshot_loop proc locals pid (suc n) pss lines
          ≡ snapshot_loop proc locals pid n (pss ++ ps ∷ []) left
    unfolding snapshot_loop left
    stored_some ps e = rw (snapshot_loop, e) refl

  -- A loop comes with what `snapshot_loop` returns, and releases what it allocates.
  abbrev LoopReleased : ℕ → List PageStat → List Bytes → Type 0
  LoopReleased n pss lines =
      let (events, all) = all_loop proc locals pid n pss lines in
      (all ≡ snapshot_loop proc locals pid n pss lines)
      × (allocations b events + releases b (pagestat_free_all pss)
          ≡ releases b events + releases b (left_to_free all) + all_lost n lines)

  one_more :
      (n : ℕ) (pss : List PageStat) (lines : List Bytes)
      → ((qss : List PageStat) (rest : List Bytes) → LoopReleased n qss rest)
      → LoopReleased (suc n) pss lines
  one_more n pss lines ih =
      let (same, count) = snapshot_events-released b proc locals pid lines invalid_value in
      elim (Option-cases (snapshot_events proc locals pid lines invalid_value).1) [
        | inl e ↦
            let (loop, losses) = loop_none n pss lines e in
            (
              ap (λ r. r.1) loop ∙ sym (stored_none n pss lines (sym same ∙ e)),
              rw (loop, losses) (omega (arith, now_count n pss lines none e)),
            )
        | inr (ps, e) ↦
            let (loop, losses) = loop_some n pss lines ps e in
            let (result, total) = ih (pss ++ ps ∷ []) (left n pss lines) in
            (
              ap (λ r. r.1) loop ∙ result ∙ sym (stored_some n pss lines ps (sym same ∙ e)),
              rw (loop, losses)
                  (let rest = (all_loop proc locals pid n (pss ++ ps ∷ []) (left n pss lines)).0 in
                    omega (
                      arith,
                      allocations-append b (events_now n pss lines) rest,
                      releases-append b (events_now n pss lines) rest,
                      now_count n pss lines (some ps) e,
                      free_all-append pss ps,
                      total,
                    )),
            )
      ]

  all_loop-released : (n : ℕ) (pss : List PageStat) (lines : List Bytes) → LoopReleased n pss lines
  unfolding all_loop snapshot_loop all_lost
  all_loop-released zero pss lines = (refl, omega (arith, allocations-free_all pss))
  all_loop-released (suc n) pss lines = one_more n pss lines (all_loop-released n)

  left_to_free-NoArray : (all : Option (List PageStat)) → NoArray (left_to_free all)
  left_to_free-NoArray none = (refl, refl)
  left_to_free-NoArray (some pss) = free_all-NoArray pss

  -- For each block, and whatever is in the files of /proc: pagestat_snapshot_all on an open file, with
  -- pagestat_free_all of what it returns, releases the block as often as it allocates it, but for the array and for
  -- the flags that are stored over others. The array is allocated once, and neither of the two
  -- functions releases it. The events come with what the function returns.
  pub snapshot_all-released :
      (lines : List Bytes)
      → let (events, all) = snapshot_all_events proc locals pid lines in
        (all ≡ snapshot_loop proc locals pid max_maps [] lines)
        × (allocations b events
            ≡ releases b events
              + releases b (left_to_free all)
              + (one b array + all_lost max_maps lines))
        × (allocations array events ≡ 1)
        × (releases array events ≡ 0)
        × (releases array (left_to_free all) ≡ 0)
  unfolding snapshot_all_events pagestat_free_all one
  snapshot_all-released lines =
      let (same, total) = all_loop-released max_maps [] lines in
      let (allocated, released) = all_loop-NoArray proc locals pid max_maps [] lines in
      (
        same,
        omega (arith, total),
        omega (arith, allocated),
        released,
        (left_to_free-NoArray (all_loop proc locals pid max_maps [] lines).1).1,
      )
