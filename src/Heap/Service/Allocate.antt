-- ===== src/Heap/Service/Allocate.antt =====
-- What `svc_service_gheap_allocate` of src/service/svr_heap.c does with a request.
use skibios.Prelude.{
  ℕ, ◌+◌, ◌/◌, ◌<◌, ◌≡◌, ◌≢◌, ◌⊎◌, inl, inr, refl, ap, ◌∙◌, true, Bool-cases, ==_ne, ◌==◌, some,
  List, [], ◌∷◌, ◌++◌, length-append, arith, u32, sub32, update,
}
use skibios.Heap.{Heap, HeapConfig}
use skibios.Heap.Chain.{IsHeap, total}
use skibios.Heap.Chain.Change.{remaining_lem}
use skibios.Heap.Search.{search_free_marker}
use skibios.Heap.Search.Fit.{suits, NoneSuits, search_free_marker-NoneSuits}
use skibios.Heap.Search.Take.{Whole, InTwo, search_free_marker-IsHeap}
use skibios.Heap.Append.{find_place}
use skibios.Heap.Append.Grow.{add_new_allocated_marker-IsHeap}
use skibios.Heap.Service.{search_done, add_block, svc_service_gheap_allocate}

search_done_lem :
    (h : Heap) (address size : ℕ)
    → address ≢ 0
    → search_done h address size
      ≡ (record h { heap_remaining = sub32 h.heap_remaining size }, address)
unfolding search_done
search_done_lem h address size ne = rw (==_ne address 0 ne) refl

allocate_adds :
    (c : HeapConfig) (h : Heap) (size : ℕ)
    → search_free_marker c h size ≡ (h, 0)
    → svc_service_gheap_allocate c h size ≡ add_block c h size
unfolding svc_service_gheap_allocate
allocate_adds c h size none_found = elim (Bool-cases (h.blist_size == 0)) [
  | inl e ↦ rw e refl
  | inr e ↦ rw (e, none_found) refl
]

-- Where no marker suits a size above 0 and below 2 ^ 15 and a place for a marker is found, in a heap above address 0 whose
-- blocks end below 2 ^ 32 and that has fewer than 2 ^ 32 - 1 markers, svc_service_gheap_allocate ends and returns the address
-- behind all blocks: a marker with the size stands behind all others, the markers are a list again, every other word keeps
-- its size, the start of the blocks is as before, and the bytes that remain are less by the size.
pub svc_service_gheap_allocate_append :
    (c : HeapConfig) (h : Heap) (ms : List ℕ) (size new : ℕ)
    → IsHeap h ms
    → 0 < size
    → size < 32768
    → h.blist_size < 4294967295
    → 0 < h.hstart_addr
    → h.hstart_addr + total h ms < 4294967296
    → NoneSuits h size ms
    → find_place (c.heap_bookeeping_size / 4) h h.bstart_addr ≡ some new
    → (h' : Heap) × (svc_service_gheap_allocate c h size ≡ some (h', h.hstart_addr + total h ms))
      × IsHeap h' (ms ++ (new ∷ []))
      × (h'.hstart_addr ≡ h.hstart_addr)
      × (h'.heap_remaining ≡ sub32 h.heap_remaining size)
      × ((x : ℕ) → h'.size x ≡ update h.size new size x)
unfolding add_block
svc_service_gheap_allocate_append c h ms size new ok pos small room above below unfit found =
    let (h', added, ok', (start, same), sizes) =
      add_new_allocated_marker-IsHeap c h ms size new ok pos small room found in
    let address : u32 (h.hstart_addr + total h ms) ≡ h.hstart_addr + total h ms =
      omega (arith, below) in
    (
      record h' { heap_remaining = sub32 h'.heap_remaining size },
      allocate_adds c h size (search_free_marker-NoneSuits c h ms size ok small unfit)
          ∙ rw (added, add_block)
              (ap (λ (x : Heap × ℕ). some x)
                (search_done_lem h' _ size (omega (arith, above, below)) ∙ rw address refl)),
      remaining_lem h' _ new ms [] ok',
      start,
      ap (λ (x : ℕ). sub32 x size) same,
      sizes,
    )

allocate_done :
    (c : HeapConfig) (h h' : Heap) (address size : ℕ)
    → search_free_marker c h size ≡ (h', address)
    → h.blist_size ≢ 0
    → address ≢ 0
    → svc_service_gheap_allocate c h size ≡ some (search_done h' address size)
unfolding svc_service_gheap_allocate
allocate_done c h h' address size found blocks ne =
    rw (==_ne h.blist_size 0 blocks, found, ==_ne address 0 ne) refl

-- Where a marker with another one behind it is the first free one that is large enough for a size above 0 and below 2 ^ 15, in a
-- heap above address 0 whose blocks before it end below 2 ^ 32 and that has fewer than 2 ^ 32 - 1 markers, svc_service_gheap_allocate
-- ends and returns the address of its block. Either the markers are the same and the block is in use as it is, or an
-- empty word becomes a free marker directly behind it, the block has the size, and the new marker the bytes that are left of it.
-- In both cases the markers are a list again, every other word keeps its size, the start of the blocks is as before, and
-- the bytes that remain are less by the size.
pub svc_service_gheap_allocate_first :
    (c : HeapConfig) (h : Heap) (m b size : ℕ) (front post : List ℕ)
    → IsHeap h (front ++ (m ∷ b ∷ post))
    → h.blist_size < 4294967295
    → 0 < size
    → size < 32768
    → 0 < h.hstart_addr
    → h.hstart_addr + total h front < 4294967296
    → NoneSuits h size front
    → suits h size m ≡ true
    → (h' : Heap) × (svc_service_gheap_allocate c h size ≡ some (h', h.hstart_addr + total h front))
      × (h'.hstart_addr ≡ h.hstart_addr)
      × (h'.heap_remaining ≡ sub32 h.heap_remaining size)
      × (Whole h h' m (front ++ (m ∷ b ∷ post)) ⊎ InTwo h h' size m front (b ∷ post))
svc_service_gheap_allocate_first c h m b size front post ok room pos small above below unfit fits =
    let (h', found, (start, same), outcome) =
      search_free_marker-IsHeap c h m b size front post ok room pos small unfit fits in
    let address : u32 (h.hstart_addr + total h front) ≡ h.hstart_addr + total h front =
      omega (arith, below) in
    let blocks : h.blist_size ≢ 0 =
      omega (arith, ok.counted, length-append {0} front (m ∷ b ∷ post)) in
    let n = sub32 h'.heap_remaining size in
    (
      record h' { heap_remaining = n },
      allocate_done c h h' _ size found blocks (omega (arith, above, below))
          ∙ ap (λ (x : Heap × ℕ). some x)
              (search_done_lem h' _ size (omega (arith, above, below)) ∙ rw address refl),
      start,
      ap (λ (x : ℕ). sub32 x size) same,
      elim outcome [
        | inl (ok', sizes) ↦ inl (remaining_lem h' n m front (b ∷ post) ok', sizes)
        | inr (s, empty, ok', sizes) ↦
            inr (s, empty, remaining_lem h' n m front (s ∷ b ∷ post) ok', sizes)
      ],
    )
