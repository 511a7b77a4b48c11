-- ===== src/Heap/Service.antt =====
-- The services of src/service/svr_heap.c. Their rows of the table are commented out.
pub mod Allocate
pub mod Release
pub mod Return
use skibios.Prelude.{ℕ, ◌==◌, ◌&&◌, not, if◌then◌else◌, Option, none, some, sub32}
use skibios.Error.{error_none, error_empty_heap, error_wrong_heap_pointer}
use skibios.Heap.{Heap, HeapConfig}
use skibios.Heap.Search.{search_free_marker}
use skibios.Heap.Append.{add_new_allocated_marker}
use skibios.Heap.Release.{release_allocated_marker}

-- From `search_done` on.
unfoldable pub search_done : Heap → ℕ → ℕ → Heap × ℕ
search_done h address size =
    if address == 0
    then (h, address)
    else (record h { heap_remaining = sub32 h.heap_remaining size }, address)

unfoldable pub add_block : HeapConfig → Heap → ℕ → Option (Heap × ℕ)
unfolding search_done
add_block c h size = elim (add_new_allocated_marker c h size) [
  | none ↦ none
  | some (h', address) ↦ some (search_done h' address size)
]

-- The result is the address of the block, or 0. `none`: a loop that does not end.
unfoldable pub svc_service_gheap_allocate : HeapConfig → Heap → ℕ → Option (Heap × ℕ)
unfolding search_done add_block
svc_service_gheap_allocate c h size =
    let (h', address) = search_free_marker c h size in
    if h.blist_size == 0
    then add_block c h size
    else (if address == 0 then add_block c h' size else some (search_done h' address size))

-- The result is the error.
unfoldable pub svc_service_gheap_release : Heap → ℕ → Option (Heap × ℕ)
svc_service_gheap_release h address =
    if h.blist_size == 0
    then some (h, error_empty_heap)
    else (elim (release_allocated_marker h address) [
      | none ↦ none
      | some (h', status) ↦ some (
        h',
        if (status == 0) && not (h'.blist_size == 0) then error_wrong_heap_pointer else error_none,
      )
    ])
