-- ===== src/Tests/MemoryTests.antt =====
-- pagestat: the blocks of a snapshot of a mapping that has two lines of flags.
use mm_exper.Base.{◌+◌, ◌≡◌, List, [], ◌∷◌}
use mm_exper.Base.Text.{Bytes, codes}
use mm_exper.PageStat.Data.{max_maps}
use mm_exper.PageStat.Snapshot.{find_header, get_pagestat_snapshot, snapshot_loop}
use mm_exper.PageStat.Memory.{array, name, vm_flags, snapshot_events, snapshot_all_events}
use mm_exper.PageStat.Memory.Counts.{one, allocations, releases, lost, free_taken}
use mm_exper.PageStat.Memory.Fields.{flags_in}
use mm_exper.PageStat.Memory.Laws.{snapshot_events-released}
use mm_exper.PageStat.Memory.All.{all_lost, left_to_free, snapshot_all-released}
use mm_exper.Tests.SmapsTests.{proc, pid, locals}

abbrev lines : List Bytes
lines =
    codes "00400000-00401000 rw-p 00001000 08:02 173521 /usr/bin/cat\n"
    ∷ codes "Size:                  4 kB\n"
    ∷ codes "VmFlags: rd wr mr \n"
    ∷ codes "VmFlags: rd wr mr me \n"
    ∷ codes "00500000-00501000 rw-p 00001000 08:02 173521 /usr/bin/cat\n"
    ∷ codes "Size:                  4 kB\n"
    ∷ codes "VmFlags: rd wr mr \n"
    ∷ []

snapshot_events-released_example :
    let (events, taken) = snapshot_events proc locals pid lines 0x400800 in
    (taken ≡ (get_pagestat_snapshot proc locals pid lines 0x400800).0)
    × (allocations vm_flags events
        ≡ releases vm_flags events
          + releases vm_flags (free_taken taken)
          + lost vm_flags (flags_in locals (find_header locals 0x400800 locals.first_word lines)))
snapshot_events-released_example = snapshot_events-released vm_flags proc locals pid lines 0x400800

snapshot_all-released_example :
    let (events, all) = snapshot_all_events proc locals pid lines in
    (all ≡ snapshot_loop proc locals pid max_maps [] lines)
    × (allocations name events
        ≡ releases name events
          + releases name (left_to_free all)
          + (one name array + all_lost name proc locals pid max_maps lines))
    × (allocations array events ≡ 1)
    × (releases array events ≡ 0)
    × (releases array (left_to_free all) ≡ 0)
snapshot_all-released_example = snapshot_all-released name proc locals pid lines
