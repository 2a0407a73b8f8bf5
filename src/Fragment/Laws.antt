-- ===== src/Fragment/Laws.antt =====
-- Each page and each address that the module gets is given back once.
use mathlib.Core.Option
use mm_exper.Base.{
  ℕ, zero, suc, ◌+◌, ◌-◌, ◌^◌, ◌≤◌, ◌<◌, ◌≡◌, refl, ap, ◌∙◌, arith, Bool, true, false, ◌&&◌,
}
use mm_exper.Base.{◌==◌, ltb, leb, if◌then◌else◌, Bool-cases, inl, inr, Option-cases}
use mm_exper.Base.{Option, none, some, List, [], ◌∷◌, ◌++◌}
use mm_exper.Fragment.{
  Kernel, Call, alloc_pages, split_page, free_pages, vmalloc_huge, vfree, num_vmallocs, Loaded,
  buddy, alloc_loop, split_loop, vmalloc_loop, after_alloc, fragment_init, free_loop, vfree_loop,
  fragment_exit,
}

-- What is held: a page, by its number, or mapped memory, by its address.
pub data Held : Type 0 where
  page address : ℕ → Held

abbrev one_if : Bool → ℕ
one_if b = if b then 1 else 0

abbrev within : ℕ → ℕ → ℕ → ℕ
within f p n = one_if (leb p f && ltb f (p + n))

-- How often a call takes and gives back something that is held.
abbrev takes : Held → Call → ℕ
takes (page f) (alloc_pages p) = within f p (2 ^ 9)
takes (address a) (vmalloc_huge v) = one_if (v == a)
takes _ _ = 0

abbrev gives : Held → Call → ℕ
gives (page f) (free_pages p) = within f p (2 ^ 8)
gives (address a) (vfree v) = one_if (v == a)
gives _ _ = 0

-- The count of something behind calls, or none if it is given back while it is not held.
unfoldable pub replay : Held → List Call → ℕ → Option ℕ
replay h [] c = some c
replay h (call ∷ calls) c =
    let rest = replay h calls (c - gives h call + takes h call) in
    if leb (gives h call) c then rest else none

abbrev then_replay : Held → List Call → Option ℕ → Option ℕ
then_replay h ds none = none
then_replay h ds (some d) = replay h ds d

replay-append :
    (h : Held) (cs ds : List Call) (c : ℕ)
    → replay h (cs ++ ds) c ≡ then_replay h ds (replay h cs c)
unfolding replay
replay-append h [] ds c = refl
replay-append h (call ∷ cs) ds c = elim (Bool-cases (leb (gives h call) c)) [
  | inl e ↦ rw (replay, e) (replay-append h cs ds (c - gives h call + takes h call))
  | inr e ↦ rw (replay, e) refl
]

-- Calls in front that are known.
replay_after :
    (h : Held) (cs ds : List Call) (c : ℕ) {d : ℕ}
    → replay h cs c ≡ some d
    → replay h (cs ++ ds) c ≡ replay h ds d
replay_after h cs ds c e = replay-append h cs ds c ∙ ap (then_replay h ds) e

-- A call when there is enough to give back.
replay-step :
    (h : Held) (call : Call) (cs : List Call) (c : ℕ)
    → replay h (call ∷ cs) (gives h call + c) ≡ replay h cs (c + takes h call)
unfolding replay
replay-step h call cs c =
    rw (enough (gives h call) c) (ap (λ (n : ℕ). replay h cs (n + takes h call)) (omega arith))
  where
    enough : (g c : ℕ) → leb g (g + c) ≡ true
    enough g c = ground arith

-- How often something is in the blocks, in their first halves and in the addresses.
abbrev blocks : Held → List ℕ → ℕ
blocks h [] = 0
blocks h (p ∷ ps) = takes h (alloc_pages p) + blocks h ps

abbrev halves : Held → List ℕ → ℕ
halves h [] = 0
halves h (p ∷ ps) = gives h (free_pages p) + halves h ps

abbrev buddies : Held → List ℕ → ℕ
buddies h [] = 0
buddies h (p ∷ ps) = gives h (free_pages (buddy p)) + buddies h ps

abbrev mapped : Held → List ℕ → ℕ
mapped h [] = 0
mapped h (v ∷ vs) = let rest = mapped h vs in if v == 0 then 0 else takes h (vmalloc_huge v) + rest

two_halves :
    (h : Held) (p : ℕ)
    → takes h (alloc_pages p) ≡ gives h (free_pages (buddy p)) + gives h (free_pages p)
two_halves (page f) p = ground arith
two_halves (address a) p = refl

blocks-halves : (h : Held) (ps : List ℕ) → blocks h ps ≡ buddies h ps + halves h ps
blocks-halves h [] = refl
blocks-halves h (p ∷ ps) = omega (arith, two_halves h p, blocks-halves h ps)

takes_none : (h : Held) (p : ℕ) → takes h (free_pages p) ≡ 0
takes_none (page f) p = refl
takes_none (address a) p = refl

alloc_gives_none : (h : Held) (p : ℕ) → gives h (alloc_pages p) ≡ 0
alloc_gives_none (page f) p = refl
alloc_gives_none (address a) p = refl

split_neutral : (h : Held) (p : ℕ) → (gives h (split_page p) ≡ 0) × (takes h (split_page p) ≡ 0)
split_neutral (page f) p = (refl, refl)
split_neutral (address a) p = (refl, refl)

split_loop-replay :
    (h : Held) (ps : List ℕ) (c : ℕ) → replay h (split_loop ps) (buddies h ps + c) ≡ some c
unfolding split_loop replay
split_loop-replay h [] c = ap some (omega arith)
split_loop-replay h (p ∷ ps) c =
    ap (replay h (split_loop (p ∷ ps))) (omega (arith, split_neutral h p))
    ∙ replay-step h (split_page p) (free_pages (buddy p) ∷ split_loop ps) (buddies h (p ∷ ps) + c)
    ∙ ap (replay h (free_pages (buddy p) ∷ split_loop ps)) (omega (arith, split_neutral h p))
    ∙ replay-step h (free_pages (buddy p)) (split_loop ps) (buddies h ps + c)
    ∙ ap (replay h (split_loop ps)) (omega (arith, takes_none h (buddy p)))
    ∙ split_loop-replay h ps c

free_loop-replay :
    (h : Held) (ps : List ℕ) (c : ℕ) → replay h (free_loop ps) (halves h ps + c) ≡ some c
unfolding free_loop replay
free_loop-replay h [] c = ap some (omega arith)
free_loop-replay h (p ∷ ps) c =
    ap (replay h (free_loop (p ∷ ps))) (omega arith)
    ∙ replay-step h (free_pages p) (free_loop ps) (halves h ps + c)
    ∙ ap (replay h (free_loop ps)) (omega (arith, takes_none h p))
    ∙ free_loop-replay h ps c

mapped_none : (h : Held) (v : ℕ) → takes h (vfree v) ≡ 0
mapped_none (page f) v = refl
mapped_none (address a) v = refl

gives_none : (h : Held) (v : ℕ) → gives h (vmalloc_huge v) ≡ 0
gives_none (page f) v = refl
gives_none (address a) v = refl

given_back : (h : Held) (v : ℕ) → gives h (vfree v) ≡ takes h (vmalloc_huge v)
given_back (page f) v = refl
given_back (address a) v = refl

mapped-cons :
    (h : Held) (v : ℕ) (vs : List ℕ)
    → (v == 0) ≡ false
    → mapped h (v ∷ vs) ≡ takes h (vmalloc_huge v) + mapped h vs
mapped-cons h v vs e = rw e refl

replay-nil : (h : Held) {c d : ℕ} → c ≡ d → replay h [] c ≡ some d
unfolding replay
replay-nil h e = ap some e

vmalloc_loop-replay :
    (kernel : Kernel) (h : Held) (left i c : ℕ)
    → let filled = vmalloc_loop kernel left i in
      replay h filled.calls c ≡ some (mapped h filled.vaddrs + c)
unfolding vmalloc_loop
vmalloc_loop-replay kernel h zero i c = replay-nil h (omega arith)
vmalloc_loop-replay kernel h (suc left) i c = elim (Bool-cases (kernel.vmalloc_huge i == 0)) [
  | inl e ↦ rw e (replay-nil h (omega arith))
  | inr e ↦ rw e (
      let v = kernel.vmalloc_huge i in
      let rest = vmalloc_loop kernel left (suc i) in
      ap (replay h (vmalloc_huge v ∷ rest.calls)) (omega (arith, gives_none h v))
      ∙ replay-step h (vmalloc_huge v) rest.calls c
      ∙ vmalloc_loop-replay kernel h left (suc i) (c + takes h (vmalloc_huge v))
      ∙ ap some (omega (arith, mapped-cons h v rest.vaddrs e)))
]

vfree_loop-replay :
    (h : Held) (vs : List ℕ) (c : ℕ) → replay h (vfree_loop vs) (mapped h vs + c) ≡ some c
unfolding vfree_loop
vfree_loop-replay h [] c = replay-nil h (omega arith)
vfree_loop-replay h (v ∷ vs) c = elim (Bool-cases (v == 0)) [
  | inl e ↦ rw e (replay-nil h (omega arith))
  | inr e ↦ rw e (
      ap (replay h (vfree v ∷ vfree_loop vs)) (omega (arith, given_back h v))
      ∙ replay-step h (vfree v) (vfree_loop vs) (mapped h vs + c)
      ∙ ap (replay h (vfree_loop vs)) (omega (arith, mapped_none h v))
      ∙ vfree_loop-replay h vs c)
]

alloc_loop_lem :
    (kernel : Kernel) (last fuel n : ℕ) (pages : List ℕ) (calls : List Call)
    → kernel.alloc_pages last ≡ none
    → n ≤ last
    → last < n + fuel
    → ((h : Held) → replay h calls 0 ≡ some (blocks h pages))
    → (r : List ℕ × List Call) × (alloc_loop kernel fuel n pages calls ≡ some r)
      × ((h : Held) → replay h r.1 0 ≡ some (blocks h r.0))
unfolding alloc_loop
alloc_loop_lem kernel last zero n pages calls out le lt held = absurd (omega arith)
alloc_loop_lem kernel last (suc fuel) n pages calls out le lt held =
    elim (Option-cases (kernel.alloc_pages n)) [
      | inl e ↦ ((pages, calls), rw (alloc_loop, e) refl, held)
      | inr (p, e) ↦
          rw (alloc_loop, e)
            (alloc_loop_lem kernel last fuel (suc n) (p ∷ pages) (calls ++ alloc_pages p ∷ []) out
              (later p e) (omega arith) (λ h. added h p))
    ]
  where
    later : (p : ℕ) → kernel.alloc_pages n ≡ some p → suc n ≤ last
    later p e = grind arith

    added :
        (h : Held) (p : ℕ)
        → replay h (calls ++ alloc_pages p ∷ []) 0 ≡ some (takes h (alloc_pages p) + blocks h pages)
    added h p =
        replay_after h calls (alloc_pages p ∷ []) 0 (held h)
        ∙ ap (replay h (alloc_pages p ∷ [])) (omega (arith, alloc_gives_none h p))
        ∙ replay-step h (alloc_pages p) [] (blocks h pages)
        ∙ replay-nil h (omega arith)

-- The calls of both functions, from the calls that took the blocks on.
all_calls-replay :
    (h : Held) (kernel : Kernel) (pages : List ℕ) (calls : List Call)
    → replay h calls 0 ≡ some (blocks h pages)
    → let filled = vmalloc_loop kernel num_vmallocs 0 in
      replay h
        ((calls ++ split_loop pages ++ filled.calls)
          ++ (free_loop pages ++ vfree_loop filled.vaddrs))
        0
      ≡ some 0
all_calls-replay h kernel pages calls held =
    let filled = vmalloc_loop kernel num_vmallocs 0 in
    let first : replay h (calls ++ split_loop pages ++ filled.calls) 0
        ≡ some (mapped h filled.vaddrs + halves h pages) =
      replay_after h (calls ++ split_loop pages) filled.calls 0 {d = halves h pages} (
        replay_after h calls (split_loop pages) 0 held
        ∙ ap (replay h (split_loop pages)) (blocks-halves h pages)
        ∙ split_loop-replay h pages (halves h pages))
      ∙ vmalloc_loop-replay kernel h num_vmallocs 0 (halves h pages) in
    replay_after h (calls ++ split_loop pages ++ filled.calls) _ 0 first
    ∙ ap (replay h (free_loop pages ++ vfree_loop filled.vaddrs))
        {x = mapped h filled.vaddrs + halves h pages}
        {y = halves h pages + (mapped h filled.vaddrs + 0)} (omega arith)
    ∙ replay_after h (free_loop pages) _ _ (free_loop-replay h pages (mapped h filled.vaddrs + 0))
    ∙ vfree_loop-replay h filled.vaddrs 0

-- If the allocator is out of blocks at some call, with fuel for the calls up to it, fragment_init
-- ends. Of each page and of each address, behind any of the calls of fragment_init and then of
-- fragment_exit: it is given back only while it is held, and in the end it is as often given back as
-- it was taken, however many of the calls of vmalloc_huge fail.
pub fragment_init-replay :
    (kernel : Kernel) (fuel last : ℕ)
    → kernel.alloc_pages last ≡ none
    → last < fuel
    → (m : Loaded) × (fragment_init kernel fuel ≡ some m)
      × ((h : Held) → replay h (m.calls ++ (fragment_exit kernel m).0) 0 ≡ some 0)
unfolding fragment_init after_alloc fragment_exit
fragment_init-replay kernel fuel last out enough =
    let (r, made, held) =
      alloc_loop_lem kernel last fuel 0 [] [] out (omega arith) (omega arith)
        (λ h. replay-nil h refl) in
    (
      after_alloc kernel r,
      ap (Option.map (after_alloc kernel)) made,
      λ h. all_calls-replay h kernel r.0 r.1 (held h),
    )
