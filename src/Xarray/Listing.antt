-- ===== src/Xarray/Listing.antt =====
-- The listing of a tree: each node once, with its own marks.
use mm_exper.Base.{
  ℕ, zero, suc, ◌+◌, ◌≤◌, ◌<◌, ◌≡◌, refl, sym, ap, ◌∙◌, arith, true, ◌==◌, ltb, Bool-cases, inl,
  inr,
}
use mm_exper.Base.{some, List, [], ◌∷◌, ◌++◌, length, length-append, drop}
use mathlib.Core.List.{append-nil}
use mm_exper.Base.Text.{Bytes}
use mm_exper.Xarray.{
  Node, Slots, empty, value, node, internal, xa_node, end, slot, Line, Buffers, max_depth,
  overwritten, with_text, marked, finished, examine_node, examine_slots,
}

-- The marks of the slots of a node.
unfoldable pub marks_of : Slots → Bytes
marks_of end = []
marks_of (slot empty slots) = b'.' ∷ marks_of slots
marks_of (slot value slots) = b'*' ∷ marks_of slots
marks_of (slot (node n) slots) = b'N' ∷ marks_of slots
marks_of (slot internal slots) = marks_of slots

-- The lines of a node, those of the nodes below it first.
unfoldable mutual
  pub lines_of : ℕ → Node → List Line
  lines_of depth (xa_node shift slots) =
      lines_below depth slots
      ++ record { depth = depth; shift = shift; marks = marks_of slots } ∷ []

  pub lines_below : ℕ → Slots → List Line
  lines_below depth end = []
  lines_below depth (slot empty slots) = lines_below depth slots
  lines_below depth (slot value slots) = lines_below depth slots
  lines_below depth (slot (node n) slots) = lines_of (depth + 1) n ++ lines_below depth slots
  lines_below depth (slot internal slots) = lines_below depth slots

-- All nodes have 64 slots with known entries, and the tree from a depth on stays above MAX_DEPTH.
unfoldable mutual
  pub IsListed : ℕ → Node → Type 0
  IsListed depth (xa_node shift slots) =
      (depth < max_depth) × (length (marks_of slots) ≡ 64) × AreListed depth slots

  pub AreListed : ℕ → Slots → Type 0
  AreListed depth end = Unit
  AreListed depth (slot empty slots) = AreListed depth slots
  AreListed depth (slot value slots) = AreListed depth slots
  AreListed depth (slot (node n) slots) = IsListed (depth + 1) n × AreListed depth slots
  AreListed depth (slot internal slots) = AreListed depth slots

-- No buffer holds more than the marks of a node.
abbrev pub Fits : Buffers → Type 0
Fits bufs = (k : ℕ) → length (bufs k) ≤ 64

drop-all : (n : ℕ) (xs : Bytes) → length xs ≤ n → drop n xs ≡ []
drop-all zero [] h = refl
drop-all zero (x ∷ xs) h = absurd (omega arith)
drop-all (suc n) [] h = refl
drop-all (suc n) (x ∷ xs) h = drop-all n xs (omega arith)

overwritten-full :
    (marks old : Bytes) → length marks ≡ 64 → length old ≤ 64 → overwritten marks old ≡ marks
overwritten-full marks old full fits =
    ap (λ (t : Bytes). marks ++ t) (drop-all (length marks) old (omega arith)) ∙ append-nil marks

Fits-with_text :
    (depth : ℕ) (text : Bytes) (bufs : Buffers)
    → length text ≡ 64
    → Fits bufs
    → Fits (with_text depth text bufs)
Fits-with_text depth text bufs full fits k = elim (Bool-cases (k == depth)) [
  | inl same ↦ rw same (omega arith)
  | inr other ↦ rw other (fits k)
]

-- What a node, and the slots of a node, come to.
abbrev Comes : ℕ → Node → Buffers → Type 0
Comes depth n bufs =
    (after : Buffers) × (examine_node depth n bufs
      ≡ some (record { count = length (lines_of depth n); lines = lines_of depth n; bufs = after }))
    × Fits after

abbrev ComesBelow : ℕ → Slots → Buffers → Type 0
ComesBelow depth slots bufs =
    (after : Buffers) × (examine_slots depth slots bufs
      ≡ some (record {
        below = length (lines_below depth slots);
        marks = marks_of slots;
        printed = lines_below depth slots;
        after = after;
      }))
    × Fits after

node_ends :
    (depth shift : ℕ) (slots : Slots) (bufs : Buffers)
    → depth < max_depth
    → length (marks_of slots) ≡ 64
    → ComesBelow depth slots bufs
    → Comes depth (xa_node shift slots) bufs
unfolding examine_node lines_of
node_ends depth shift slots bufs above full (after, e, fits) =
    let line : Line = record { depth = depth; shift = shift; marks = marks_of slots } in
    (
      with_text depth (marks_of slots) after,
      rw (in_range above) (
          ap (finished depth shift) e
          ∙ ap
              (λ (t : Bytes). some (record {
                count = length (lines_below depth slots) + 1;
                lines = lines_below depth slots ++ record line { marks = t } ∷ [];
                bufs = with_text depth t after;
              }))
              (overwritten-full (marks_of slots) (after depth) full (fits depth))
          ∙ ap
              (λ (c : ℕ). some (record {
                count = c;
                lines = lines_below depth slots ++ line ∷ [];
                bufs = with_text depth (marks_of slots) after;
              }))
              (sym (length-append (lines_below depth slots) (line ∷ [])))),
      Fits-with_text depth (marks_of slots) after full fits,
    )
  where
    in_range : depth < max_depth → ltb depth max_depth ≡ true
    in_range above = ground arith

slot_node :
    (depth : ℕ) (n : Node) (slots : Slots) (bufs : Buffers)
    → (c : Comes (depth + 1) n bufs) → ComesBelow depth slots c.0
    → ComesBelow depth (slot (node n) slots) bufs
unfolding examine_node lines_of marks_of
slot_node depth n slots bufs (middle, e, _) (after, f, fits) =
    (after, rw (e, f, length-append (lines_of (depth + 1) n) (lines_below depth slots)) refl, fits)

mutual
  unfolding IsListed examine_node lines_of marks_of

  node-Comes :
      (depth : ℕ) (n : Node) (bufs : Buffers) → IsListed depth n → Fits bufs → Comes depth n bufs
  node-Comes depth (xa_node shift slots) bufs (above, full, below) fits =
      node_ends depth shift slots bufs above full (slots-Comes depth slots bufs below fits)

  slots-Comes :
      (depth : ℕ) (slots : Slots) (bufs : Buffers)
      → AreListed depth slots
      → Fits bufs
      → ComesBelow depth slots bufs
  slots-Comes depth end bufs h fits = (bufs, refl, fits)
  slots-Comes depth (slot empty slots) bufs h fits =
      let (after, e, f) = slots-Comes depth slots bufs h fits in (after, ap (marked b'.') e, f)
  slots-Comes depth (slot value slots) bufs h fits =
      let (after, e, f) = slots-Comes depth slots bufs h fits in (after, ap (marked b'*') e, f)
  slots-Comes depth (slot (node n) slots) bufs (one, rest) fits =
      let c = node-Comes (depth + 1) n bufs one fits in
      slot_node depth n slots bufs c (slots-Comes depth slots c.0 rest c.2)
  slots-Comes depth (slot internal slots) bufs h fits = slots-Comes depth slots bufs h fits

-- The listing of a tree of nodes, if each has 64 slots that hold nothing, a value or a node and
-- the tree has at most MAX_DEPTH levels: from buffers that hold at most 64 marks, examine_node stays
-- within the buffers, prints each node once, behind the nodes below it, with exactly the marks of
-- its slots whatever the buffers held, and returns the number of lines.
pub examine_node-lines :
    (n : Node) (bufs : Buffers)
    → IsListed 0 n
    → Fits bufs
    → (after : Buffers) × (examine_node 0 n bufs
        ≡ some (record { count = length (lines_of 0 n); lines = lines_of 0 n; bufs = after }))
examine_node-lines n bufs h fits = let c = node-Comes 0 n bufs h fits in (c.0, c.1)
