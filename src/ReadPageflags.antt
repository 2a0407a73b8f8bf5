-- ===== src/ReadPageflags.antt =====
-- read-pageflags/read-pageflags.c: the flags of single pages, by virtual address or by frame.
pub mod Words
pub mod Hex
pub mod Maps
pub mod Flags
pub mod Print
pub mod Same
