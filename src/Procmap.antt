-- ===== src/Procmap.antt =====
-- random/procmap.c: which neighbours a moved mapping is merged with, in every combination of states.
pub mod Case
pub mod Moves
pub mod Query
pub mod Cases
pub mod Protect
pub mod Program
