-- ===== src/PageStat/Data.antt =====
-- pagestat/pagestat.h: `struct pagestat` and the limit on the number of mappings. Pointers to text
-- that may be null are options; the three arrays are lists.
use mm_exper.Base.{ℕ, Bool, false, Option, none, List, []}
use mm_exper.Base.Text.{Bytes}

-- `MAX_MAPS`.
abbrev pub max_maps : ℕ
max_maps = 8192

pub record PageStat : Type 0 where
  pub vma_start : ℕ
  pub vma_end : ℕ
  pub perms : Bytes
  pub offset : ℕ
  pub name : Option Bytes
  pub vm_size : ℕ
  pub rss : ℕ
  pub rss_counted : Bool
  pub referenced : ℕ
  pub anon : ℕ
  pub anon_huge : ℕ
  pub swap : ℕ
  pub locked : ℕ
  pub vm_flags : Option Bytes
  pub pagemaps : List ℕ
  pub kpagecounts : List ℕ
  pub kpageflags : List ℕ

-- What `calloc` gives, with the range that `get_pagestat_snapshot` stores first.
abbrev pub cleared : ℕ → ℕ → PageStat
cleared from to = record {
  vma_start = from;
  vma_end = to;
  perms = [];
  offset = 0;
  name = none;
  vm_size = 0;
  rss = 0;
  rss_counted = false;
  referenced = 0;
  anon = 0;
  anon_huge = 0;
  swap = 0;
  locked = 0;
  vm_flags = none;
  pagemaps = [];
  kpagecounts = [];
  kpageflags = [];
}
