-- ===== src/MergeCases/Documented.antt =====
-- The layouts that the comments of the source show, and the cases that it announces.
use Prim.Native.String.{String}
use mm_exper.Base.{
  ℕ, zero, suc, ◌+◌, ◌-◌, ◌≡◌, refl, arith, Bool, true, false, ◌&&◌, ◌==◌, if◌then◌else◌, get_or,
  take,
}
use mm_exper.Base.{Option-cases, inl, inr, length, Option, none, some, List, [], ◌∷◌, ◌++◌}
use mm_exper.Base.Text.{Bytes, codes}
use mm_exper.MergeCases.{
  Prot, no_access, ro, rw, Page, reserved, hole, mapped, Call, map, mprotect, unmap, remap, reunmap,
  remap_expand, kmsg, main_calls, run,
}

-- Both areas.
pub record Areas : Type 0 where
  pub base : List Page
  pub rebase : List Page

-- `n` pages from an offset on become another.
abbrev set : ℕ → ℕ → Page → List Page → List Page
set off n q [] = []
set zero zero q ps = ps
set zero (suc n) q (p ∷ ps) = q ∷ set zero n q ps
set (suc off) n q (p ∷ ps) = p ∷ set off n q ps

abbrev copy : List Page → ℕ → ℕ → ℕ → List Page → List Page
copy source src zero tgt target = target
copy source src (suc n) tgt target =
    copy source (suc src) n (suc tgt) (set tgt 1 (get_or source src hole) target)

abbrev after_call : Call → Areas → Areas
after_call (map off n prot) a = record a { base = set off n (mapped prot) a.base }
after_call (mprotect off n prot) a = record a { base = set off n (mapped prot) a.base }
after_call (unmap off n) a = record a { base = set off n hole a.base }
after_call (remap src n tgt) a = record a { rebase = copy a.base src n tgt a.rebase }
after_call (reunmap off n) a = record a { rebase = set off n hole a.rebase }
after_call (remap_expand off n m) a = record a {
  base = set (off + n) (m - n) (get_or a.base off hole) a.base;
}
after_call (kmsg s) a = a

-- The pages as the comments write them: `.` for one that is not the program's.
abbrev shown : List Page → Bytes
shown [] = []
shown (mapped rw ∷ ps) = b'w' ∷ shown ps
shown (mapped ro ∷ ps) = b'r' ∷ shown ps
shown (mapped no_access ∷ ps) = b'n' ∷ shown ps
shown (_ ∷ ps) = b'.' ∷ shown ps

-- A layout as a comment writes it: the first area with `x`, or `w`, `r` and `n`, and the second with `y`.
pub record Comment : Type 0 where
  pub base_text : String
  pub rebase_text : String

abbrev plain : Bytes → Bytes
plain [] = []
plain (c ∷ cs) = (if c == b'x' then b'w' else if c == b'y' then b'w' else c) ∷ plain cs

abbrev same_text : Bytes → Bytes → Bool
same_text [] [] = true
same_text (c ∷ cs) (d ∷ ds) = (c == d) && same_text cs ds
same_text _ _ = false

-- The pages that the text shows are as it shows them.
abbrev shows : String → List Page → Bool
shows s ps = same_text (plain (codes s)) (take (length (codes s)) (shown ps))

abbrev matches : Comment → Areas → Bool
matches c a = shows c.base_text a.base && shows c.rebase_text a.rebase

-- Whether two pages are mapped alike, so that their mappings can be merged.
abbrev same_prot : Prot → Prot → Bool
same_prot no_access no_access = true
same_prot ro ro = true
same_prot rw rw = true
same_prot _ _ = false

abbrev alike : Page → Page → Bool
alike (mapped p) (mapped q) = same_prot p q
alike _ _ = false

abbrev left_of : ℕ → List Page → Page
left_of zero ps = hole
left_of (suc off) ps = get_or ps off hole

-- The number of the case in which new pages are merged with the mapping on the left, on the right, or
-- with both; 0 for none.
abbrev placed_case : Bool → Bool → ℕ
placed_case true true = 1
placed_case true false = 2
placed_case false true = 3
placed_case false false = 0

-- And in which pages that are mapped change: the end of a mapping (4) or its start (5) goes over to the
-- neighbour, or a whole mapping is merged with both neighbours (6), the left (7) or the right (8).
abbrev whole_case : Bool → Bool → ℕ
whole_case true true = 6
whole_case true false = 7
whole_case false true = 8
whole_case false false = 0

abbrev changed_case : Bool → Bool → Bool → Bool → ℕ
changed_case false false left right = whole_case left right
changed_case true false left right = if right then 4 else 0
changed_case false true left right = if left then 5 else 0
changed_case true true left right = 0

abbrev placed : ℕ → ℕ → Page → List Page → ℕ
placed off n q ps = placed_case (alike (left_of off ps) q) (alike (get_or ps (off + n) hole) q)

abbrev case_of : Call → Areas → ℕ
case_of (map off n prot) a = placed off n (mapped prot) a.base
case_of (remap src n tgt) a = placed tgt n (get_or a.base src hole) a.rebase
case_of (remap_expand off n m) a = placed (off + n) (m - n) (get_or a.base off hole) a.base
case_of (mprotect off n prot) a =
    let l = left_of off a.base in
    let r = get_or a.base (off + n) hole in
    let o = get_or a.base off hole in
    changed_case (alike l o) (alike r o) (alike l (mapped prot)) (alike r (mapped prot))
case_of _ a = 0

-- The digit at the end of a message.
abbrev last_digit : ℕ → Bytes → ℕ
last_digit n [] = n
last_digit n (c ∷ cs) = last_digit (c - b'0') cs

abbrev announcement : Call → Option ℕ
announcement (kmsg s) = some (last_digit 0 (codes s))
announcement _ = none

abbrev is_announced : Option ℕ → ℕ → Bool
is_announced none k = true
is_announced (some n) k = n == k

-- Each call that is announced is of the case that is announced, and leads to the layout of the comment above
-- it, the comments being taken in order.
unfoldable pub is_documented : List Call → Option ℕ → Areas → List Comment → Bool
is_documented [] pending a comments = true
is_documented (c ∷ cs) pending a [] = elim (announcement c) [
  | some k ↦ is_documented cs (some k) a []
  | none ↦ false
]
is_documented (c ∷ cs) pending a (d ∷ ds) = elim (announcement c) [
  | some k ↦ is_documented cs (some k) a (d ∷ ds)
  | none ↦
      let rest = is_documented cs none (after_call c a) ds in
      is_announced pending (case_of c a) && matches d (after_call c a) && rest
]

abbrev first_area : List String → List Comment
first_area [] = []
first_area (s ∷ ss) = record { base_text = s; rebase_text = "" } ∷ first_area ss

abbrev both_areas : List (String × String) → List Comment
both_areas [] = []
both_areas ((s, t) ∷ ss) = record { base_text = s; rebase_text = t } ∷ both_areas ss

-- The comments of the source.
abbrev pub comments : List Comment
comments =
    first_area (
      "x.." ∷ "x.x" ∷ "xxx" ∷ "x.x" ∷ "x.." ∷ "xx." ∷ "x.." ∷ "..." ∷ "..x" ∷ ".xx" ∷ "..x" ∷ "..."
      ∷ [])
    ++ (both_areas (
          ("x....", "")
          ∷ ("x.x..", "")
          ∷ ("x.x.x", "")
          ∷ ("x.x.x", "y..")
          ∷ ("x.x.x", "y.y")
          ∷ ("x.x.x", "yyy")
          ∷ ("x.x.x", "y.y")
          ∷ ("x.x.x", "y..")
          ∷ ("x.x.x", "yy.")
          ∷ ("x.x.x", ".y.")
          ∷ ("x.x.x", "...")
          ∷ ("x.x.x", "..y")
          ∷ ("x.x.x", ".yy")
          ∷ ("x.x.x", "..y")
          ∷ ("x.x.x", "...")
          ∷ ("..x.x", "...")
          ∷ ("....x", "...")
          ∷ (".....", "...")
          ∷ [])
        ++ first_area (
            "x.." ∷ "x.x" ∷ "xxx" ∷ "..." ∷ "x.." ∷ "xx." ∷ "ww." ∷ "wwr" ∷ "wrr" ∷ "wwr" ∷ "..."
            ∷ "w.." ∷ "wr." ∷ "wrw" ∷ "www" ∷ "wnw" ∷ "wn." ∷ "ww." ∷ "rw." ∷ "ww." ∷ []))

-- The areas behind `init`, with any pages behind the first ones.
abbrev pub areas : List Page → List Page → Areas
areas rest rest' = record {
  base = reserved ∷ reserved ∷ reserved ∷ reserved ∷ reserved ∷ rest;
  rebase = reserved ∷ reserved ∷ reserved ∷ rest';
}

all_documented :
    (rest rest' : List Page) → is_documented main_calls none (areas rest rest') comments ≡ true
unfolding is_documented main_calls
all_documented rest rest' = refl

-- A run that ends early keeps to the comments.
run-documented :
    (succeeds : ℕ → Bool) (i : ℕ) (cs : List Call) (pending : Option ℕ) (a : Areas)
    (ds : List Comment)
    → is_documented cs pending a ds ≡ true
    → is_documented (run succeeds i cs) pending a ds ≡ true
unfolding is_documented run
run-documented succeeds i [] pending a ds h = h
run-documented succeeds i (c ∷ cs) pending a [] h = elim (Option-cases (announcement c)) [
  | inr (k, e) ↦ grind (arith, e, run-documented succeeds (suc i) cs (some k) a [])
  | inl e ↦ grind (arith, e)
]
run-documented succeeds i (c ∷ cs) pending a (d ∷ ds) h = elim (Option-cases (announcement c)) [
  | inr (k, e) ↦ grind (arith, e, run-documented succeeds (suc i) cs (some k) a (d ∷ ds))
  | inl e ↦ grind (arith, e, run-documented succeeds (suc i) cs none (after_call c a) ds)
]

-- Whatever the pages behind the first ones are, and whichever call fails and ends the program: each call that
-- was made has led to the layout that the comment above it shows, and each that was announced as a case
-- is of that case, by how the new or changed pages stand to the mappings on their left and right.
pub main_calls-documented :
    (rest rest' : List Page) (succeeds : ℕ → Bool)
    → is_documented (run succeeds 0 main_calls) none (areas rest rest') comments ≡ true
main_calls-documented rest rest' succeeds =
    run-documented succeeds 0 main_calls none (areas rest rest') comments
      (all_documented rest rest')
