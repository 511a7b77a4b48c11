-- ===== src/Heap/Release.antt =====
-- `release_allocated_marker` of src/heap.c: the marker of a block becomes free, and is joined with a free
-- one behind it and with a free one before it.
pub mod Absorb
pub mod Walk
pub mod Ways
pub mod Free
pub mod Join
pub mod Inner
pub mod Outer
use skibios.Prelude.{
  ℕ, zero, suc, ◌+◌, ◌-◌, ◌*◌, ◌==◌, leb, if◌then◌else◌, Option, none, some, u16, u32, sub32,
}
use skibios.Heap.{
  Heap, HeapConfig, is_free, clear_mask, set_mask, sext16, next_marker, distance, fits_offset,
  is_empty, set_size, set_offset, clear_marker,
}

-- `loop`: the marker of the block at the address. The service asks only where there is a marker.
unfoldable pub find_block : ℕ → Heap → ℕ → ℕ → ℕ → Option ℕ
find_block zero h wanted marker address = none
find_block (suc rounds) h wanted marker address =
    let rest =
      find_block rounds h wanted (next_marker h marker)
        (u32 (address + clear_mask (h.size marker))) in
    if address == wanted then some marker else rest

-- What the registers R3 and R6 hold besides: the size of the free marker with its mask, and the count.
pub record Freed : Type 0 where
  pub heap : Heap
  pub header : ℕ
  pub count : ℕ

-- From `proc` to `skip`.
unfoldable pub free_marker : Heap → ℕ → Freed
free_marker h marker =
    let header = set_mask (h.size marker) in
    let h1 =
      set_size marker header
        (record h { heap_remaining = u32 (h.heap_remaining + clear_mask (h.size marker)) }) in
    let count = h.blist_size in
    let next = next_marker h1 marker in
    let sum = header + clear_mask (h1.size next) in
    let to_next = u32 (distance next marker + sext16 (h1.offset next)) in
    let kept : Freed = record { heap = h1; header = header; count = count } in
    if h1.offset marker == 0
    then record { heap = clear_marker marker h1; header = header; count = sub32 count 1 }
    else (if is_free (h1.size next)
        then (if leb 0xFFFF sum
            then record kept { header = sum }
            else (if fits_offset to_next
                then record {
                  heap = clear_marker next (set_size marker sum (set_offset marker to_next h1));
                  header = sum;
                  count = sub32 count 1;
                }
                else record kept { header = sum }))
        else kept)

-- `again`: the marker that leads to the given one. `none`: the walk goes on for ever.
unfoldable pub find_before : ℕ → Heap → ℕ → ℕ → Option ℕ
find_before zero h marker from = none
find_before (suc fuel) h marker from =
    let rest = find_before fuel h marker (next_marker h from) in
    if next_marker h from == marker then some from else rest

-- From `club` to `uexit`.
unfoldable pub join_before : Freed → ℕ → ℕ → Freed
join_before f marker before =
    let h = f.heap in
    let sum = f.header + clear_mask (h.size before) in
    let to_next = u32 (distance marker before + sext16 (h.offset marker)) in
    if is_empty h marker
    then record f { heap = record (set_offset before 0 h) { fsll_end = before } }
    else (if is_free (h.size before)
        then (if fits_offset to_next
            then record {
              heap = clear_marker marker (set_size before sum (set_offset before to_next h));
              header = sum;
              count = sub32 f.count 1;
            }
            else f)
        else f)

abbrev pub finish : Freed → Heap × ℕ
finish f = (record f.heap { blist_size = f.count }, f.count)

-- The result is the number of markers that are left, or 0 where no block has the address.
unfoldable pub release_allocated_marker : Heap → ℕ → Option (Heap × ℕ)
unfolding find_block free_marker find_before join_before
release_allocated_marker h address =
    elim (find_block h.blist_size h address h.fsll_start h.hstart_addr) [
      | none ↦ some (h, 0)
      | some marker ↦
          let f = free_marker h marker in
          if f.heap.fsll_start == marker
          then some (finish f)
          else (elim (find_before (h.blist_size + 1) f.heap marker f.heap.fsll_start) [
            | none ↦ none
            | some before ↦ some (finish (join_before f marker before))
          ])
    ]
