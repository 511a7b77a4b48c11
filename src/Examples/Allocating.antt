-- ===== src/Examples/Allocating.antt =====
-- Small heaps of src/heap.c: a bookkeeping region of 16 words from 0x20001000 on, and blocks from 0x20002000 on.
use skibios.Prelude.{
  ℕ, ◌≡◌, ◌⊎◌, refl, List, [], ◌∷◌, Option, none, some, ◌==◌, if◌then◌else◌, arith, update,
}
use skibios.Error.{error_none}
use skibios.Heap.{Heap, HeapConfig, heap_init, clear_region}
use skibios.Heap.Chain.{IsHeap, Markers, Links, total}
use skibios.Heap.Chain.Init.{heap_init-IsHeap}
use skibios.Heap.Search.{search_free_marker, find_space, find_free, split_marker, take_marker}
use skibios.Heap.Search.Fit.{NoneSuits}
use skibios.Heap.Search.Take.{Whole, InTwo}
use skibios.Heap.Search.Last.{Cycle, search_free_marker-Cycle}
use skibios.Heap.Append.{find_place, block_address, add_new_allocated_marker}
use skibios.Heap.Release.{
  find_block, find_before, free_marker, join_before, release_allocated_marker,
}
use skibios.Heap.Release.Walk.{Sized}
use skibios.Heap.Service.{
  search_done, add_block, svc_service_gheap_allocate, svc_service_gheap_release,
}
use skibios.Heap.Service.Allocate.{
  svc_service_gheap_allocate_append, svc_service_gheap_allocate_first,
}
use skibios.Heap.Service.Return.{svc_service_gheap_allocate-svc_service_gheap_release}

abbrev sixteen_words : HeapConfig
sixteen_words = record {
  heap_bookeeping_size = 16;
  heap_start_addr = 0x20002000;
  ghmb_addr = 0x20001000;
}

-- What the variables and the region hold before the start.
abbrev powered_up : Heap
powered_up = record {
  hstart_addr = 0;
  bstart_addr = 0;
  heap_remaining = 0;
  fsll_start = 0;
  fsll_end = 0;
  blist_size = 0;
  size = λ a. 77;
  offset = λ a. 77;
}

heap_init-IsHeap_example : IsHeap (heap_init sixteen_words powered_up) []
heap_init-IsHeap_example =
    heap_init-IsHeap sixteen_words powered_up (omega arith) refl (omega arith)

svc_service_gheap_allocate_append_example :
    (h' : Heap) × (svc_service_gheap_allocate sixteen_words (heap_init sixteen_words powered_up) 24
      ≡ some (h', 0x20002000))
    × IsHeap h' (0x2000103C ∷ [])
    × (h'.hstart_addr ≡ 0x20002000)
    × (h'.heap_remaining ≡ 0x3DFE8)
    × ((x : ℕ) → h'.size x ≡ update (heap_init sixteen_words powered_up).size 0x2000103C 24 x)
unfolding heap_init clear_region total NoneSuits find_place
svc_service_gheap_allocate_append_example =
    svc_service_gheap_allocate_append sixteen_words (heap_init sixteen_words powered_up) [] 24
      0x2000103C heap_init-IsHeap_example (omega arith) (omega arith) (omega arith) (omega arith)
      (omega arith) tt refl

-- Two blocks: one of 16 bytes with the given marker, and one of 8 bytes in use.
abbrev two_blocks : ℕ → Heap
two_blocks header = record {
  hstart_addr = 0x20002000;
  bstart_addr = 0x2000103C;
  heap_remaining = 0x3DFE8;
  fsll_start = 0x2000103C;
  fsll_end = 0x20001038;
  blist_size = 2;
  size = λ a. if a == 0x2000103C then header else (if a == 0x20001038 then 8 else 0);
  offset = λ a. if a == 0x2000103C then 0xFFFF else 0;
}

two_blocks-IsHeap : (header : ℕ) → IsHeap (two_blocks header) (0x2000103C ∷ 0x20001038 ∷ [])
unfolding Markers Links
two_blocks-IsHeap header = record {
  markers = (
    refl,
    (ground arith, refl, omega arith),
    (omega arith, refl, (refl, refl, omega arith), refl),
  );
  at_bstart = refl;
  aligned = refl;
  in_range = omega arith;
  hstart_in_range = omega arith;
  ended = refl;
  counted = refl;
}

-- The first marker is free, and suits.
abbrev free_first : Heap
free_first = two_blocks 0x8010

svc_service_gheap_allocate_first_example :
    (h' : Heap) × (svc_service_gheap_allocate sixteen_words free_first 8 ≡ some (h', 0x20002000))
    × (h'.hstart_addr ≡ 0x20002000)
    × (h'.heap_remaining ≡ 0x3DFE0)
    × (Whole free_first h' 0x2000103C (0x2000103C ∷ 0x20001038 ∷ [])
        ⊎ InTwo free_first h' 8 0x2000103C [] (0x20001038 ∷ []))
unfolding total NoneSuits
svc_service_gheap_allocate_first_example =
    svc_service_gheap_allocate_first sixteen_words free_first 0x2000103C 0x20001038 8 [] []
      (two_blocks-IsHeap 0x8010) (omega arith) (omega arith) (omega arith) (omega arith)
      (omega arith) tt refl

svc_service_gheap_allocate-svc_service_gheap_release_example :
    (h' h'' : Heap) × (svc_service_gheap_allocate sixteen_words (two_blocks 16) 24
      ≡ some (h', 0x20002018))
    × (svc_service_gheap_release h' 0x20002018 ≡ some (h'', error_none))
    × IsHeap h' (0x2000103C ∷ 0x20001038 ∷ 0x20001034 ∷ [])
    × IsHeap h'' (0x2000103C ∷ 0x20001038 ∷ [])
    × (h''.heap_remaining ≡ 0x3DFE8)
unfolding total Sized NoneSuits find_place
svc_service_gheap_allocate-svc_service_gheap_release_example =
    svc_service_gheap_allocate-svc_service_gheap_release sixteen_words (two_blocks 16)
      (0x2000103C ∷ 0x20001038 ∷ []) 24 0x20001034 (two_blocks-IsHeap 16) (omega arith)
      (omega arith) (omega arith) (omega arith) (omega arith) (omega arith)
      (omega arith, (omega arith, tt)) (refl, (refl, tt)) refl

-- A free block alone.
abbrev free_alone : Heap
free_alone = record (two_blocks 0x8010) {
  fsll_end = 0x2000103C;
  blist_size = 1;
  size = λ a. if a == 0x2000103C then 0x8010 else 0;
  offset = λ a. 0;
}

free_alone-IsHeap : IsHeap free_alone (0x2000103C ∷ [])
unfolding Markers Links
free_alone-IsHeap = record {
  markers = (refl, (refl, refl, omega arith), refl);
  at_bstart = refl;
  aligned = refl;
  in_range = omega arith;
  hstart_in_range = omega arith;
  ended = refl;
  counted = refl;
}

search_free_marker-Cycle_example :
    (h' : Heap) × (search_free_marker sixteen_words free_alone 8 ≡ (h', 0x20002000))
    × Cycle h' 0x2000103C 0x20000FFC
    × (h'.blist_size ≡ 2)
    × ((ms : List ℕ) → ¬ IsHeap h' ms)
unfolding total NoneSuits find_space
search_free_marker-Cycle_example =
    search_free_marker-Cycle sixteen_words free_alone 0x2000103C 0x20000FFC 8 [] free_alone-IsHeap
      (omega arith) tt refl (omega arith) refl refl refl

-- Three blocks are allocated, the last two are released, and three more are allocated: the addresses that the
-- last three calls return. The two last ones are the same.
abbrev address_of : Option (Heap × ℕ) → ℕ
address_of none = 1
address_of (some (h, a)) = a

abbrev heap_of : Option (Heap × ℕ) → Heap
heap_of none = powered_up
heap_of (some (h, a)) = h

last_addresses : ℕ × ℕ × ℕ
last_addresses =
    let a =
      heap_of (svc_service_gheap_allocate sixteen_words (heap_init sixteen_words powered_up) 8) in
    let b = heap_of (svc_service_gheap_allocate sixteen_words a 32) in
    let c = heap_of (svc_service_gheap_allocate sixteen_words b 8) in
    let d = heap_of (svc_service_gheap_release c 0x20002008) in
    let e = heap_of (svc_service_gheap_release d 0x20002028) in
    let f = svc_service_gheap_allocate sixteen_words e 8 in
    let g = svc_service_gheap_allocate sixteen_words (heap_of f) 24 in
    (
      address_of f,
      address_of g,
      address_of (svc_service_gheap_allocate sixteen_words (heap_of g) 8),
    )

last_addresses_same : last_addresses ≡ (0x20002008, 0x20002010, 0x20002010)
unfolding last_addresses heap_init clear_region svc_service_gheap_allocate add_block search_done
    search_free_marker find_free take_marker find_space split_marker add_new_allocated_marker
    find_place block_address svc_service_gheap_release release_allocated_marker find_block
    free_marker find_before join_before
last_addresses_same = refl
