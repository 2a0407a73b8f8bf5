-- ===== src/Lib.antt =====
-- mm_exper: the parts of the repository with logic of their own, modelled and verified.
--
-- The repository is a collection of experiments on the memory management of Linux. Its library
-- code is pagestat (pagestat/pagestat.c, pagestat.h), which takes snapshots of the mappings of a
-- process from /proc, prints them and compares them, read-pageflags (read-pageflags/read-pageflags.c,
-- read-pageflags.h), which prints the flags of single pages, and include/bitwise.h, helpers on 64-bit
-- words. Of the single programs and kernel modules, these are modelled: mad/kernel/mad.c with its program
-- mad/mad.c, the devices of kernel/vmaflags, kernel/vmainfo and kernel/exper with the clients that talk to
-- them (random/shared.c and read-pageflags), kernel/xarray/xarray.c, kernel/fragment/fragment.c,
-- userfaultfd/shared.c, socket/client.c and socket/server.c, block_exper/block_vs_file.c, and of random/ the
-- programs procmap.c, mremap_bench.c, mremap_unmap.c, merge_cases.c and pagemap_tour.c.
--
-- Parts and files:
--   Base: shared names, and in its child modules the order tests, lists, digits and masks (what
--     `&`, `|` and `^` are on binary digits), 64-bit words with the wrap-around written out, bytes
--     and the conversions of sscanf and printf, output as a list of tokens, calls that return or exit,
--     and the files of /proc.
--   Bitwise: include/bitwise.h. Bitwise.Align and Bitwise.Bits: what the functions compute.
--   PageStat: pagestat/pagestat.c and pagestat.h, the sections of the file in order.
--     Data: `struct pagestat`, INVALID_VALUE, MAX_MAPS.
--     Entry: the bits of a pagemap entry, `has_pfn`, `get_pfn`.
--     Hex: `parse_hex`, `extract_address_range`; Hex.Spec: the numerals it is compared with.
--     Smaps: `get_smap_header_fields`, `get_smap_other_fields` on the lines of /proc/PID/smaps;
--       the lines that a call leaves in the file are part of its result. Smaps.Flags: the text of
--       a VmFlags line. Smaps.Loop: which lines end the loop.
--     PageTable: `read_u64s`, `tweak_counts`, `get_pagetable_fields`; PageTable.Spec: what they should fill in.
--     Snapshot: `get_pagestat_snapshot` and the functions that call it.
--     Memory: the blocks that a snapshot allocates, and `pagestat_free` and `pagestat_free_all`
--       release, as a list of events. Memory.Counts counts them; Memory.Fields: the loop over the
--       fields; Memory.Laws: a snapshot; Memory.Array: the array; Memory.All:
--       all snapshots.
--     Print: the listing. Its static variables are the record `Seen`, passed on explicitly; what
--       it puts out is a list of `Line`, rendered to output. Print.Flags: the flags of a page.
--       Print.Cover: what it means that lines account for pages. Print.Listing: the loop.
--     Diff: the comparison. Diff.Laws: its result; Diff.Stale: what it leaves behind.
--     Commands: pagestat/pagestat-cmd.c and pagestat/watch-cmd.c; Commands.Laws: the watch of a process
--       that does not change.
--   ReadPageflags: read-pageflags/read-pageflags.c and read-pageflags.h.
--     Words: the words of /proc, `extract_pfn`. Hex: the file's own parser of numbers and ranges.
--     Same: it agrees with the one of pagestat. Maps: `extract_mapdata`, `read_mapdata`; Maps.Find:
--       which line is read. Flags: the flags of a page. Print: `print_flags_phys`,
--       `print_flags_virt_precalc`, `print_flags_virt`, as what is printed with what is returned, or
--       the exit with status 1. Print.Laws: what `print_flags_virt` returns.
--   Procmap: random/procmap.c, which moves a mapping between two others and asks the kernel what was
--     merged. Case: `enum vma_state`, `struct mremap_merge_config`. Moves: `init_mappings` and
--     `__try_mremap` as the list of their calls; Moves.Layout: where these leave the pages. Query:
--     `query_ptr`, `print_query_result`. Cases: `try_mremap` and the loops of `iterate_cases`.
--     Protect: `do_mremap_mprotect`; Protect.Layout: where its calls leave the pages. Program: `main`.
--   Mad: mad/kernel/mad.c, the devices that pin a page, write to it and unpin it, with the page held as
--     the state and what is done to pages as a list of events. Mad.Laws: the pages held. Program:
--     mad/mad.c, which runs against these devices; Program.Laws: what it leaves, does and reports.
--   Fragment: kernel/fragment/fragment.c, whose allocator is a parameter. Laws: what it holds.
--   Socket: socket/client.c and socket/server.c, the connections in the order in which they are accepted.
--     Laws: the server with these clients.
--   Device: what the devices of the modules under kernel/ share, the static buffer, its reads and the
--     start of a write. Device.Documented: the calls of the kernel. Device.Vma: kernel/vmaflags/vmaflags.c and
--     kernel/vmainfo/vmainfo.c, the VMA at an address; Vma.Branches: their writes. Device.Exper:
--     kernel/exper/exper.c, the reference count and the buffers of a page; Exper.Client: the two
--     devices as `Devices` of ReadPageflags, Exper.Laws: what its `get_refcount` gets; Exper.Buffers:
--     the text of a buffer's state; Exper.Both: both devices of a page.
--   VmaFlags: random/shared.c, the flags of a VMA by name; VmaFlags.Loop: which names are printed.
--     VmaFlags.Lookup: `lookup_vma_flags`, the client of Device.Vma; Lookup.Laws: what it prints.
--   Userfault: userfaultfd/shared.c, the events of a userfaultfd, with the pages mapped and copied as the
--     state. Userfault.Listener: the loop of userfaultfd/simple.c.
--   BlockVsFile: block_exper/block_vs_file.c. Sizes: the number of blocks. Letters: the letters written.
--   MremapBench: random/mremap_bench.c. Aligned: `mmap_aligned`. Relocate: `time_relocate`, as how it
--     ends with the mappings that were made and unmade; Relocate.Laws: what is left mapped;
--     Relocate.Time: the time. Runs: the sums of `time_move`.
--   MremapUnmap: random/mremap_unmap.c, with the calls of Procmap.Protect. Layout: the pages.
--   PrivatePages: random/private2.c, the accesses to its two mappings with the size of the file at each.
--     Faults: which of them are outside. Prints: those of the prints.
--   MergeCases: random/merge_cases.c as the list of its calls. Documented: the layouts that its comments
--     show, and what the cases are that it announces.
--   PagemapTour: random/pagemap_tour.c, the description of a page; Same: it agrees with pagestat.
--   Xarray: kernel/xarray/xarray.c, the listing of the nodes of an xarray. Listing: what it prints.
--   Tests: runs on small inputs, and an instance of each theorem with hypotheses.
--
-- Snapshots go from the lines of smaps (Smaps, Hex) and the words of the page tables (PageTable,
-- Entry) through Snapshot into `PageStat` values; Print and Diff read these and share `Seen`.
--
-- Bounds: `uint64_t` is a number below 2 ^ 64, and each operation that can leave the range is wrapped
-- as the source's is. Loops over lines and pages are recursions on the list or on the number of pages
-- left, and the loop over snapshots on the MAX_MAPS places left. Fuel bounds the loops for a letter in
-- BlockVsFile, where two rounds are enough, those of `time_move` in MremapBench, where 512 are, and the
-- loop in Fragment that allocates until it fails, where one more than the blocks there are is enough;
-- the loop of watch-cmd.c, which never ends, is run for any number of rounds, and the listener of
-- userfaultfd is the relation of the states that it reaches.
--
-- Parameters: `Proc` holds the files of /proc as lines and as words, with the seeks that fail, and the
-- page size. `Locals` says what the uninitialised locals hold that `get_smap_other_fields` and
-- `get_pagestat_snapshot` test; theorems that need it assume that they keep their values from round
-- to round, which is how the program works at all. `KernelFlags` holds the bit numbers of
-- linux/kernel-page-flags.h. `Devices` holds what the devices /dev/refcount and /dev/pagebuffers answer,
-- and `Kernel` what the kernel answers in random/procmap.c, given all the calls made before, and in
-- mad/kernel/mad.c, given the number of writes before. `Calls` holds the calls of the kernel that copy and
-- read buffers and scan numbers, `Documented` what is documented of them, and `BufferBits` the bit
-- numbers of linux/buffer_head.h. `Client` and `Answers` say how files and mappings turn out.
--
-- Not modelled: messages to the user on errors, allocations that fail, overflows of the fixed
-- buffers that sscanf writes to; calls in random/procmap.c and random/mremap_unmap.c that fail and so end
-- the program; the averages that random/mremap_bench.c prints; the registration of devices and the
-- lists of kernel/exper/exper.c; pagestat/example.c, and the programs in the other directories, which
-- are sequences of system calls. random/scan.c, musl/ and userfaultfd/userfaultfd.h
-- are copies from other projects.
pub mod Base
pub mod Bitwise
pub mod PageStat
pub mod ReadPageflags
pub mod Procmap
pub mod Mad
pub mod Fragment
pub mod Socket
pub mod Device
pub mod Userfault
pub mod BlockVsFile
pub mod MremapBench
pub mod MremapUnmap
pub mod MergeCases
pub mod PrivatePages
pub mod PagemapTour
pub mod Xarray
pub mod VmaFlags
mod Tests
