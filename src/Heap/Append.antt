-- ===== src/Heap/Append.antt =====
-- `add_new_allocated_marker` of src/heap.c: a new block behind all others.
pub mod Place
pub mod Walk
pub mod Grow
use skibios.Prelude.{
  ℕ, zero, suc, ◌+◌, ◌-◌, ◌*◌, ◌/◌, ◌==◌, if◌then◌else◌, Option, none, some, u16, u32, sub32,
}
use skibios.Heap.{
  Heap, HeapConfig, clear_mask, next_marker, distance, fits_offset, is_empty, set_size, set_offset,
}

-- `loop`: R6 counts by 4 up to HEAP_BOOKEEPING_SIZE, which is a multiple of 4; R1 goes down past the words
-- in use, and stays at an empty word that is too far from the last marker.
unfoldable pub find_place : ℕ → Heap → ℕ → Option ℕ
find_place zero h a = none
find_place (suc rounds) h a =
    let far = find_place rounds h a in
    let used = find_place rounds h (sub32 a 4) in
    if is_empty h a then (if fits_offset (distance a h.fsll_end) then some a else far) else used

-- `again`: the sizes from the first marker to the new one. `none`: the walk has not met it.
unfoldable pub block_address : ℕ → Heap → ℕ → ℕ → ℕ → Option ℕ
block_address zero h new marker address = none
block_address (suc fuel) h new marker address =
    let rest =
      block_address fuel h new (next_marker h marker)
        (u32 (address + clear_mask (h.size marker))) in
    if new == marker then some address else rest

-- The result is the address of the block, or 0. The walk is given a round for each marker and one more;
-- `none`: it goes on for ever.
unfoldable pub add_new_allocated_marker : HeapConfig → Heap → ℕ → Option (Heap × ℕ)
unfolding find_place block_address
add_new_allocated_marker c h size = elim (find_place (c.heap_bookeeping_size / 4) h h.bstart_addr) [
  | none ↦ some (h, 0)
  | some new ↦
      let linked = set_offset h.fsll_end (distance new h.fsll_end) (set_size new size h) in
      let h' = record linked { fsll_end = new } in
      elim (block_address (h.blist_size + 1) h' new h'.fsll_start h'.hstart_addr) [
        | none ↦ none
        | some address ↦ some (record h' { blist_size = u32 (h'.blist_size + 1) }, address)
      ]
]
