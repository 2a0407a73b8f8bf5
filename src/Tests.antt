-- ===== src/Tests.antt =====
-- Runs of the definitions at concrete inputs, and the theorems at inputs that meet their hypotheses.
mod BitwiseTests
mod SmapsTests
mod MemoryTests
mod PrintTests
mod PageflagsTests
mod ProcmapTests
mod MadTests
mod DeviceTests
mod CommandTests
mod UserfaultTests
mod BlockTests
mod MremapTests
mod TourTests
mod XarrayTests
mod FragmentTests
mod SocketTests
mod PrivateTests
mod MergeTests
