-- ===== src/Tests/XarrayTests.antt =====
-- kernel/xarray/xarray.c: the xarray with one entry, at index 4096.
use mm_exper.Base.{ℕ, zero, suc, ◌≡◌, refl, arith, some, [], length}
use mm_exper.Xarray.{Node, Slots, empty, value, node, xa_node, end, slot, Buffers, examine_node}
use mm_exper.Xarray.Listing.{IsListed, marks_of, lines_of, examine_node-lines}

abbrev empty_slots : ℕ → Slots
empty_slots zero = end
empty_slots (suc n) = slot empty (empty_slots n)

abbrev leaf : Node
leaf = xa_node 0 (slot value (empty_slots 63))

abbrev middle : Node
middle = xa_node 6 (slot (node leaf) (empty_slots 63))

abbrev root : Node
root = xa_node 12 (slot empty (slot (node middle) (empty_slots 62)))

abbrev blank : Buffers
blank k = []

root-IsListed : IsListed 0 root
unfolding IsListed marks_of
root-IsListed = (omega arith, refl, ((omega arith, refl, ((omega arith, refl, tt), tt)), tt))

examine_node-lines_example :
    (after : Buffers) × (examine_node 0 root blank
      ≡ some (record { count = length (lines_of 0 root); lines = lines_of 0 root; bufs = after }))
examine_node-lines_example = examine_node-lines root blank root-IsListed (λ k. omega arith)

three : length (lines_of 0 root) ≡ 3
unfolding lines_of
three = refl
