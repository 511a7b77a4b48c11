-- ===== src/Heap/Search.antt =====
-- `search_free_marker` of src/heap.c: the first free marker that is large enough becomes an allocated one,
-- and what it has too much gets a marker of its own where there is room for one.
pub mod Fit
pub mod Split
pub mod Take
pub mod Last
use skibios.Prelude.{
  ℕ, zero, suc, ◌+◌, ◌-◌, ◌*◌, ◌==◌, ◌&&◌, not, if◌then◌else◌, Option, none, some, u16, u32, sub32,
}
use skibios.Heap.{
  Heap, HeapConfig, is_free, clear_mask, set_mask, sext16, next_marker, distance, fits_offset,
  signed_lt, is_empty, set_size, set_offset, clear_marker,
}

-- `again`: the marker and the address of its block. `rounds` is what blist_size has left.
unfoldable pub find_free : ℕ → Heap → ℕ → ℕ → ℕ → Option (ℕ × ℕ)
find_free zero h size marker address = none
find_free (suc rounds) h size marker address =
    let header = h.size marker in
    let rest = find_free rounds h size (next_marker h marker) (u32 (address + clear_mask header)) in
    if is_free header && not (signed_lt (clear_mask header) size)
    then some (marker, address)
    else rest

-- `loop`: an empty word, from the far end of the region.
unfoldable pub find_space : ℕ → Heap → Option ℕ
find_space zero h = none
find_space (suc n) h =
    let a = sub32 h.bstart_addr (suc n * 4) in
    let rest = find_space n h in if is_empty h a then some a else rest

-- From `calculate split marker address` on; `whole` is what `convm` makes of the marker without a split.
unfoldable pub split_marker : Heap → ℕ → ℕ → ℕ → ℕ → Heap
split_marker h size remaining marker split =
    let whole = λ (x : Heap). set_size marker (remaining + size) x in
    let to_next = u32 (distance marker split + sext16 (h.offset marker)) in
    let placed = set_offset split to_next (set_size split (set_mask remaining) h) in
    let to_split = distance split marker in
    let linked = set_offset marker to_split placed in
    if fits_offset to_next
    then (if fits_offset to_split
        then set_size marker size (record linked { blist_size = u32 (linked.blist_size + 1) })
        else whole (clear_marker split placed))
    else whole h

unfoldable pub take_marker : HeapConfig → Heap → ℕ → ℕ → Heap
unfolding find_space split_marker
take_marker c h size marker =
    let remaining = sub32 (clear_mask (h.size marker)) size in
    if remaining == 0 then set_size marker size h else (elim (find_space c.heap_bookeeping_size h) [
      | none ↦ set_size marker (remaining + size) h
      | some split ↦ split_marker h size remaining marker split
    ])

-- The address of the block, or 0.
unfoldable pub search_free_marker : HeapConfig → Heap → ℕ → Heap × ℕ
unfolding find_free take_marker
search_free_marker c h size = elim (find_free h.blist_size h size h.fsll_start h.hstart_addr) [
  | none ↦ (h, 0)
  | some (marker, address) ↦ (take_marker c h size marker, address)
]
