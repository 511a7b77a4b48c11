-- ===== src/Heap/Service/Release.antt =====
-- What `svc_service_gheap_release` of src/service/svr_heap.c does with an address.
use skibios.Prelude.{
  ℕ, ◌+◌, ◌<◌, ◌≡◌, ◌≢◌, inl, inr, refl, Bool-cases, ==_ne, ◌==◌, some, List, [], ◌∷◌, ◌++◌,
  length-append, arith, u32,
}
use skibios.Error.{error_none}
use skibios.Heap.{Heap, clear_mask}
use skibios.Heap.Chain.{IsHeap, total}
use skibios.Heap.Release.{release_allocated_marker}
use skibios.Heap.Release.Walk.{Sized}
use skibios.Heap.Release.Outer.{release_allocated_marker-ReleasedLast}
use skibios.Heap.Service.{svc_service_gheap_release}

release_ends :
    (h h' : Heap) (address : ℕ)
    → h.blist_size ≢ 0
    → release_allocated_marker h address ≡ some (h', h'.blist_size)
    → svc_service_gheap_release h address ≡ some (h', error_none)
unfolding svc_service_gheap_release
release_ends h h' address blocks released = elim (Bool-cases (h'.blist_size == 0)) [
  | inl e ↦ rw (==_ne h.blist_size 0 blocks, released) (rw e refl)
  | inr e ↦ rw (==_ne h.blist_size 0 blocks, released) (rw e refl)
]

-- For the address of the last block, in a heap with fewer than 2 ^ 32 markers in which each block before it has a byte and these
-- blocks end below 2 ^ 32: svc_service_gheap_release ends and returns ERROR_NONE, the markers are a list again, without
-- the last one, and the bytes of the block are added to those that remain.
pub svc_service_gheap_release_last :
    (h : Heap) (m : ℕ) (front : List ℕ)
    → IsHeap h (front ++ (m ∷ []))
    → h.blist_size < 4294967296
    → Sized h front
    → h.hstart_addr + total h front < 4294967296
    → (h' : Heap) × (svc_service_gheap_release h (h.hstart_addr + total h front)
        ≡ some (h', error_none))
      × IsHeap h' front
      × (h'.heap_remaining ≡ u32 (h.heap_remaining + clear_mask (h.size m)))
svc_service_gheap_release_last h m front ok room sized below =
    let (h', released, ok', remaining) =
      release_allocated_marker-ReleasedLast h m front ok room sized below in
    (
      h',
      release_ends h h' _ (omega (arith, ok.counted, length-append {0} front (m ∷ []))) released,
      ok',
      remaining,
    )
