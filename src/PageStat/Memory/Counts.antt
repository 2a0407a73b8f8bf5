-- ===== src/PageStat/Memory/Counts.antt =====
-- How often blocks are allocated and released.
use native.Mathlib.Nat.{suc-mul}
use mm_exper.Base.{ℕ, zero, suc, ◌+◌, ◌*◌, ◌≡◌, refl, arith, Bool, true, false, ◌==◌, if◌then◌else◌}
use mm_exper.Base.{Option, none, some, List, [], ◌∷◌, ◌++◌}
use mm_exper.PageStat.Data.{PageStat}
use mm_exper.PageStat.Memory.{
  Block, array, stat, name, vm_flags, pagemaps, kpagecounts, kpageflags, Event, allocate, release,
  when, pagestat_free, free_snapshot, times, is_positive,
}

abbrev pub number : Block → ℕ
number array = 0
number stat = 1
number name = 2
number vm_flags = 3
number pagemaps = 4
number kpagecounts = 5
number kpageflags = 6

-- 1 for the block that is counted.
unfoldable pub one : Block → Block → ℕ
one b x = if number b == number x then 1 else 0

abbrev pub allocations : Block → List Event → ℕ
allocations b [] = 0
allocations b (allocate x ∷ es) = one b x + allocations b es
allocations b (release x ∷ es) = allocations b es

abbrev pub releases : Block → List Event → ℕ
releases b [] = 0
releases b (allocate x ∷ es) = releases b es
releases b (release x ∷ es) = one b x + releases b es

module _ (b : Block) where
  pub allocations-append :
      (es fs : List Event) → allocations b (es ++ fs) ≡ allocations b es + allocations b fs
  allocations-append [] fs = omega arith
  allocations-append (allocate x ∷ es) fs = omega (arith, allocations-append es fs)
  allocations-append (release x ∷ es) fs = allocations-append es fs

  pub releases-append : (es fs : List Event) → releases b (es ++ fs) ≡ releases b es + releases b fs
  releases-append [] fs = omega arith
  releases-append (allocate x ∷ es) fs = releases-append es fs
  releases-append (release x ∷ es) fs = omega (arith, releases-append es fs)

  pub allocations-times : (n : ℕ) (x : Block) → allocations b (times n (allocate x)) ≡ n * one b x
  allocations-times zero x = omega arith
  allocations-times (suc n) x = omega (arith, allocations-times n x, suc-mul n (one b x))

  pub releases-times : (n : ℕ) (x : Block) → releases b (times n (allocate x)) ≡ 0
  releases-times zero x = refl
  releases-times (suc n) x = releases-times n x

  abbrev pub if_one : Bool → Block → ℕ
  if_one c x = if c then one b x else 0

  abbrev pub tables_of : Bool → ℕ
  tables_of c = if c then one b pagemaps + (one b kpagecounts + one b kpageflags) else 0

  pub releases-pagestat_free :
      (n f t : Bool)
      → releases b (pagestat_free n f t)
        ≡ if_one n name + if_one f vm_flags + tables_of t + one b stat
  unfolding pagestat_free
  releases-pagestat_free true true true = omega arith
  releases-pagestat_free true true false = omega arith
  releases-pagestat_free true false true = omega arith
  releases-pagestat_free true false false = omega arith
  releases-pagestat_free false true true = omega arith
  releases-pagestat_free false true false = omega arith
  releases-pagestat_free false false true = omega arith
  releases-pagestat_free false false false = omega arith

  pub allocations-pagestat_free : (n f t : Bool) → allocations b (pagestat_free n f t) ≡ 0
  unfolding pagestat_free
  allocations-pagestat_free true true true = refl
  allocations-pagestat_free true true false = refl
  allocations-pagestat_free true false true = refl
  allocations-pagestat_free true false false = refl
  allocations-pagestat_free false true true = refl
  allocations-pagestat_free false true false = refl
  allocations-pagestat_free false false true = refl
  allocations-pagestat_free false false false = refl

  -- The flags that are stored over others.
  abbrev pub lost : ℕ → ℕ
  lost zero = 0
  lost (suc n) = n * one b vm_flags

  pub stored-lost : (n : ℕ) → n * one b vm_flags ≡ if_one (is_positive n) vm_flags + lost n
  stored-lost zero = omega arith
  stored-lost (suc n) = omega (arith, suc-mul n (one b vm_flags))

  pub named_block :
      (c : Bool)
      → (allocations b (when c (allocate name ∷ [])) ≡ if_one c name)
        × (releases b (when c (allocate name ∷ [])) ≡ 0)
  named_block true = (omega arith, refl)
  named_block false = (refl, refl)

-- What `pagestat_free` will release of what a call returns.
abbrev pub free_taken : Option PageStat → List Event
free_taken none = []
free_taken (some ps) = free_snapshot ps

pub allocations-free_taken : (b : Block) (o : Option PageStat) → allocations b (free_taken o) ≡ 0
allocations-free_taken b none = refl
allocations-free_taken b (some ps) = allocations-pagestat_free b _ _ _
