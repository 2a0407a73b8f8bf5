-- ===== src/ReadPageflags/Print/Laws.antt =====
-- What `print_flags_virt` prints and returns.
use mm_exper.Base.{
  ℕ, ◌≡◌, refl, sym, ap, ◌∙◌, Bool, true, false, not, ◌&&◌, ◌||◌, ◌==◌, if◌then◌else◌,
}
use mm_exper.Base.{Option, Bool-cases, ==_iff, inl, inr, [], ◌∷◌, ◌++◌}
use mm_exper.Base.Int.{ℤ}
use mm_exper.Base.Output.{text, dec, pointer}
use mm_exper.Base.Word.{invalid_value}
use mm_exper.Base.Text.{Bytes}
use mm_exper.Base.Proc.{Proc}
use mm_exper.PageStat.Print.Flags.{KernelFlags}
use mm_exper.ReadPageflags.Words.{extract_pfn, read_pagemap, read_kpageflags, read_mapcount}
use mm_exper.ReadPageflags.Flags.{print_pagemap_flags}
use mm_exper.ReadPageflags.Maps.{MapData, read_mapdata}
use mm_exper.ReadPageflags.Print.{
  Devices, get_refcount, print_page_buffers, print_frame, print_flags_virt_precalc, print_flags_at,
  print_flags_virt, fields_if, with_kpageflags, with_pfn, with_pagemap, closing, print_fields,
}
use mm_exper.Base.Run.{Run, returned, print, then_run}

module _ (proc : Proc) (kpf : KernelFlags) (dev : Devices) (descr : Bytes) where
  -- No stage looks at a value behind the first that is invalid.
  flags-invalid :
      (p k c : ℕ)
      → (k == invalid_value) ≡ true
      → with_kpageflags proc kpf dev p invalid_value invalid_value descr
        ≡ with_kpageflags proc kpf dev p k c descr
  unfolding with_kpageflags
  flags-invalid p k c e = rw (e, with_kpageflags) refl

  pfn-invalid :
      (p k c : ℕ)
      → (p == invalid_value) ≡ true
      → with_pfn proc kpf dev p invalid_value invalid_value descr
        ≡ with_pfn proc kpf dev p k c descr
  unfolding with_pfn
  pfn-invalid p k c e = rw (e, with_pfn) refl

  pagemap-invalid :
      (m p k c : ℕ)
      → (m == invalid_value) ≡ true
      → with_pagemap proc kpf dev invalid_value invalid_value invalid_value invalid_value descr
        ≡ with_pagemap proc kpf dev m p k c descr
  unfolding with_pagemap
  pagemap-invalid m p k c e = rw (e, with_pagemap) refl

  -- What is behind a stage is all that a later one adds.
  under_pfn :
      (p k c k' c' : ℕ)
      → with_kpageflags proc kpf dev p k c descr ≡ with_kpageflags proc kpf dev p k' c' descr
      → with_pfn proc kpf dev p k c descr ≡ with_pfn proc kpf dev p k' c' descr
  unfolding with_pfn
  under_pfn p k c k' c' e =
      ap
        (λ (r : Run Bool).
          if p == invalid_value
          then print (closing (text "(not present)" ∷ []) descr) true
          else if p == 0
          then print (closing (text "(cannot retrieve PFN)" ∷ []) descr) false
          else then_run {0, 0} (print (text "pfn=" ∷ dec p ∷ text ": " ∷ []) tt) (λ u. r))
        e

  under_pagemap :
      (m p k c k' c' : ℕ)
      → with_pfn proc kpf dev p k c descr ≡ with_pfn proc kpf dev p k' c' descr
      → with_pagemap proc kpf dev m p k c descr ≡ with_pagemap proc kpf dev m p k' c' descr
  unfolding with_pagemap
  under_pagemap m p k c k' c' e =
      ap
        (λ (r : Run Bool).
          if m == invalid_value
          then print (closing (text "(invalid pagemap)" ∷ []) descr) false
          else then_run {0, 0} (print (print_pagemap_flags m) tt) (λ u. r))
        e

  module _ (ptr : ℕ) (fields : Option MapData) where
    abbrev line : ℕ → ℕ → ℕ → ℕ → Run Bool
    line m p k c = print_flags_virt_precalc proc kpf dev ptr m p k c fields descr

    under_line :
        (m p k c m' p' k' c' : ℕ)
        → with_pagemap proc kpf dev m p k c descr ≡ with_pagemap proc kpf dev m' p' k' c' descr
        → line m p k c ≡ line m' p' k' c'
    unfolding print_flags_virt_precalc
    under_line m p k c m' p' k' c' e =
        ap
          (λ (r : Run Bool).
            then_run {0, 0} (print ((pointer ptr ∷ text ": " ∷ []) ++ print_fields fields) tt)
              (λ u. r))
          e

    -- What is printed if every value is read, whatever the values in front of it are.
    abbrev pub all_read : ℕ → Run Bool
    all_read m =
        line m (extract_pfn m) (read_kpageflags proc (extract_pfn m))
          (read_mapcount proc (extract_pfn m))

    -- Below a test that fails, the next one.
    module _ (m : ℕ) where
      abbrev p : ℕ
      p = extract_pfn m

      abbrev k : ℕ
      k = read_kpageflags proc p

      abbrev c : ℕ
      c = read_mapcount proc p

      abbrev from_count : Run Bool
      from_count = if c == invalid_value then line m p k invalid_value else line m p k c

      abbrev from_flags : Run Bool
      from_flags = if k == invalid_value then line m p invalid_value invalid_value else from_count

      from_count-all_read : from_count ≡ all_read m
      from_count-all_read = elim (Bool-cases (c == invalid_value)) [
        | inl e ↦ rw e (ap (line m p k) (sym ((==_iff c invalid_value).0 e)))
        | inr e ↦ rw e refl
      ]

      from_flags-all_read : from_flags ≡ all_read m
      from_flags-all_read = elim (Bool-cases (k == invalid_value)) [
        | inl e ↦ rw e (
            under_line m p _ _ m p k c
              (under_pagemap m p _ _ k c (under_pfn p _ _ k c (flags-invalid p k c e))))
        | inr e ↦ rw e from_count-all_read
      ]

      from_pfn-all_read :
          (if p == invalid_value then line m p invalid_value invalid_value else from_flags)
          ≡ all_read m
      from_pfn-all_read = elim (Bool-cases (p == invalid_value)) [
        | inl e ↦
            rw e (under_line m p _ _ m p k c (under_pagemap m p _ _ k c (pfn-invalid p k c e)))
        | inr e ↦ rw e from_flags-all_read
      ]

      pub print_flags_at-all_read : print_flags_at proc kpf dev ptr m fields descr ≡ all_read m
      unfolding print_flags_at
      print_flags_at-all_read = elim (Bool-cases (m == invalid_value)) [
        | inl e ↦ rw (e, print_flags_at) (under_line _ _ _ _ m p k c (pagemap-invalid m p k c e))
        | inr e ↦ rw (e, print_flags_at) from_pfn-all_read
      ]

then_run-end :
    {A B : Type 0} (a : Run A) (next : A → Run B) (x : A)
    → a.end ≡ returned x
    → (then_run a next).end ≡ (next x).end
then_run-end a next x e = rw e refl

-- The devices let the program go on: neither call exits.
abbrev pub LetsGo : Devices → ℕ → Type 0
LetsGo dev pfn =
    ((n : ℤ) × ((get_refcount dev pfn).end ≡ returned n))
    × ((print_page_buffers dev pfn).end ≡ returned tt)

-- Whether the page could be described: a page that is not present can, one whose frame number or
-- flags are withheld cannot.
abbrev pub describable : Proc → ℕ → Bool
describable proc pagemap =
    let pfn = extract_pfn pagemap in
    not (pagemap == invalid_value)
    && (pfn == invalid_value || (not (pfn == 0) && not (read_kpageflags proc pfn == invalid_value)))

print_frame-end :
    (kpf : KernelFlags) (dev : Devices) (p k c : ℕ) (descr : Bytes)
    → LetsGo dev p
    → (print_frame kpf dev p k c descr).end ≡ returned tt
unfolding print_frame
print_frame-end kpf dev p k c descr ((n, refcount), buffers) =
    then_run-end (get_refcount dev p) _ n refcount
    ∙ then_run-end (print_page_buffers dev p) _ tt buffers

module _ (proc : Proc) (kpf : KernelFlags) (dev : Devices) (descr : Bytes) where
  with_kpageflags-end :
      (p k c : ℕ)
      → LetsGo dev p
      → (with_kpageflags proc kpf dev p k c descr).end ≡ returned (not (k == invalid_value))
  unfolding with_kpageflags
  with_kpageflags-end p k c h = elim (Bool-cases (k == invalid_value)) [
    | inl e ↦ rw (e, with_kpageflags) refl
    | inr e ↦
        rw (e, with_kpageflags)
          (then_run-end (print_frame kpf dev p k c descr) _ tt
            (print_frame-end kpf dev p k c descr h))
  ]

  with_pfn-end :
      (p k c : ℕ)
      → LetsGo dev p
      → (with_pfn proc kpf dev p k c descr).end
        ≡ returned (p == invalid_value || (not (p == 0) && not (k == invalid_value)))
  unfolding with_pfn
  with_pfn-end p k c h = elim (Bool-cases (p == invalid_value)) [
    | inl e ↦ rw (e, with_pfn) refl
    | inr e ↦
        rw (e, with_pfn)
          (elim (Bool-cases (p == 0)) [
            | inl z ↦ rw z refl
            | inr z ↦ rw z (with_kpageflags-end p k c h)
          ])
  ]

  all_read-end :
      (ptr : ℕ) (fields : Option MapData) (m : ℕ)
      → LetsGo dev (extract_pfn m)
      → (all_read proc kpf dev descr ptr fields m).end ≡ returned (describable proc m)
  unfolding print_flags_virt_precalc with_pagemap
  all_read-end ptr fields m h = elim (Bool-cases (m == invalid_value)) [
    | inl e ↦ rw (e, with_pagemap) refl
    | inr e ↦ rw (e, with_pagemap) (with_pfn-end (extract_pfn m) _ _ h)
  ]

-- `print_flags_virt` prints and returns what `print_flags_virt_precalc` does if all the values are
-- read first: its early returns only save reads.
pub print_flags_virt-all_read :
    (proc : Proc) (kpf : KernelFlags) (dev : Devices) (kept : Bytes → Bytes) (held : Bytes)
    (ptr : ℕ) (descr : Bytes)
    → print_flags_virt proc kpf dev kept held ptr descr
      ≡ print_flags_virt_precalc proc kpf dev ptr
          (read_pagemap proc ptr)
          (extract_pfn (read_pagemap proc ptr))
          (read_kpageflags proc (extract_pfn (read_pagemap proc ptr)))
          (read_mapcount proc (extract_pfn (read_pagemap proc ptr)))
          (fields_if proc kpf dev (read_mapdata proc kept held ptr))
          descr
unfolding print_flags_virt
print_flags_virt-all_read proc kpf dev kept held ptr descr =
    print_flags_at-all_read proc kpf dev descr ptr _ (read_pagemap proc ptr)

-- If the devices let it go on, `print_flags_virt` returns, and the result is true exactly if the
-- pagemap entry could be read and either holds no frame or holds one that is not 0 and whose flags
-- could be read. A missing line of /proc/self/maps and a missing count do not matter.
pub print_flags_virt-describable :
    (proc : Proc) (kpf : KernelFlags) (dev : Devices) (kept : Bytes → Bytes) (held : Bytes)
    (ptr : ℕ) (descr : Bytes)
    → LetsGo dev (extract_pfn (read_pagemap proc ptr))
    → (print_flags_virt proc kpf dev kept held ptr descr).end
      ≡ returned (describable proc (read_pagemap proc ptr))
print_flags_virt-describable proc kpf dev kept held ptr descr h =
    ap (λ (r : Run Bool). r.end) (print_flags_virt-all_read proc kpf dev kept held ptr descr)
    ∙ all_read-end proc kpf dev descr ptr _ (read_pagemap proc ptr) h
