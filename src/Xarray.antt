-- ===== src/Xarray.antt =====
-- kernel/xarray/xarray.c: the listing of the nodes of an xarray.
pub mod Listing
use mm_exper.Base.{ℕ, zero, suc, ◌+◌, Bool, ◌==◌, ltb, if◌then◌else◌}
use mm_exper.Base.{Option, none, some, List, [], ◌∷◌, ◌++◌, length, drop}
use mm_exper.Base.Text.{Bytes}

-- An entry of a slot: null, a value, a node, or another internal entry. A node has a shift and 64 slots.
mutual
  pub data Entry : Type 0 where
    empty : Entry
    value : Entry
    node : Node → Entry
    internal : Entry

  pub data Node : Type 0 where
    xa_node : ℕ → Slots → Node

  pub data Slots : Type 0 where
    end : Slots
    slot : Entry → Slots → Slots

-- A line that is printed: the depth, the shift and the text of the buffer.
pub record Line : Type 0 where
  pub depth : ℕ
  pub shift : ℕ
  pub marks : Bytes

-- `buf`, by the depth, as C strings.
abbrev pub Buffers : Type 0
Buffers = ℕ → Bytes

-- `MAX_DEPTH`.
abbrev pub max_depth : ℕ
max_depth = 5

-- The text behind the writes of `marks` from the start on: what was longer stays.
abbrev pub overwritten : Bytes → Bytes → Bytes
overwritten marks old = marks ++ drop (length marks) old

abbrev pub with_text : ℕ → Bytes → Buffers → Buffers
with_text depth text bufs k = if k == depth then text else bufs k

-- What a call returns and prints, and the buffers behind it.
pub record Examined : Type 0 where
  pub count : ℕ
  pub lines : List Line
  pub bufs : Buffers

-- The loop of a node over its slots: the sum of the counts, what is written to the node's own buffer, the
-- lines of the nodes below, and the buffers.
pub record Looped : Type 0 where
  pub below : ℕ
  pub marks : Bytes
  pub printed : List Line
  pub after : Buffers

abbrev pub marked : ℕ → Option Looped → Option Looped
marked c none = none
marked c (some l) = some (record l { marks = c ∷ l.marks })

abbrev pub then_slots : Option Examined → (Buffers → Option Looped) → Option Looped
then_slots none next = none
then_slots (some e) next = elim (next e.bufs) [
  | none ↦ none
  | some l ↦ some (record l { below = e.count + l.below; printed = e.lines ++ l.printed })
]

abbrev pub finished : ℕ → ℕ → Option Looped → Option Examined
finished depth shift none = none
finished depth shift (some l) =
    let line = overwritten l.marks (l.after depth) in
    some (record {
      count = l.below + 1;
      lines = l.printed ++ record { depth = depth; shift = shift; marks = line } ∷ [];
      bufs = with_text depth line l.after;
    })

-- A node at a depth that has no buffer is none: the source writes past the end of `buf`. A node's own
-- buffer is written while its loop runs, but read at the end only.
unfoldable mutual
  pub examine_node : ℕ → Node → Buffers → Option Examined
  examine_node depth (xa_node shift slots) bufs =
      let looped = examine_slots depth slots bufs in
      if ltb depth max_depth then finished depth shift looped else none

  pub examine_slots : ℕ → Slots → Buffers → Option Looped
  examine_slots depth end bufs = some (record { below = 0; marks = []; printed = []; after = bufs })
  examine_slots depth (slot empty slots) bufs = marked b'.' (examine_slots depth slots bufs)
  examine_slots depth (slot value slots) bufs = marked b'*' (examine_slots depth slots bufs)
  examine_slots depth (slot (node n) slots) bufs =
      marked b'N'
        (then_slots (examine_node (depth + 1) n bufs) (λ later. examine_slots depth slots later))
  examine_slots depth (slot internal slots) bufs = examine_slots depth slots bufs

-- What examine_xa prints of the head of the xarray: the number of the nodes behind their lines, a
-- single mark, or that the head is not known.
pub data Report : Type 0 where
  nodes : ℕ → List Line → Report
  single : ℕ → Report
  unrecognised : Report

abbrev nodes_of : Option Examined → Option Report
nodes_of none = none
nodes_of (some e) = some (nodes e.count e.lines)

-- `is_zero` says whether an internal entry is XA_ZERO_ENTRY.
unfoldable pub examine_xa : Entry → Bool → Buffers → Option Report
unfolding examine_node
examine_xa empty is_zero bufs = some (single b'.')
examine_xa value is_zero bufs = some (single b'*')
examine_xa (node n) is_zero bufs = nodes_of (examine_node 0 n bufs)
examine_xa internal is_zero bufs = some (if is_zero then single b'.' else unrecognised)
