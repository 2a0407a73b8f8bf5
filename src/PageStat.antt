-- ===== src/PageStat.antt =====
-- pagestat/: the library that takes snapshots of a process's mappings, prints them and compares
-- them, and the two commands on it. This file only gathers the parts.
pub mod Data
pub mod Entry
pub mod Hex
pub mod Smaps
pub mod PageTable
pub mod Snapshot
pub mod Memory
pub mod Print
pub mod Diff
pub mod Commands
