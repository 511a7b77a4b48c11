-- ===== src/Heap/Service/Return.antt =====
-- A block that is allocated behind all others and released again.
use skibios.Prelude.{
  ℕ, ◌+◌, ◌/◌, ◌<◌, ◌≡◌, refl, ap, subst, ◌∙◌, some, List, [], ◌∷◌, ◌++◌, length-append, arith,
  update, update_self, update_ne,
}
use skibios.Error.{error_none}
use skibios.Heap.{Heap, HeapConfig, clear_mask}
use skibios.Heap.Chain.{IsMarker, Links, Markers, IsHeap, total}
use skibios.Heap.Chain.Change.{not_empty}
use skibios.Heap.Search.Fit.{NoneSuits}
use skibios.Heap.Append.{find_place}
use skibios.Heap.Append.Place.{find_place-IsPlace}
use skibios.Heap.Release.Walk.{Sized}
use skibios.Heap.Service.{svc_service_gheap_allocate, svc_service_gheap_release}
use skibios.Heap.Service.Allocate.{svc_service_gheap_allocate_append}
use skibios.Heap.Service.Release.{svc_service_gheap_release_last}

module _ (h h' : Heap) (kept : (x : ℕ) → IsMarker h x → h'.size x ≡ h.size x) where
  Links-total :
      (a : ℕ) (rest : List ℕ)
      → Links h a rest
      → IsMarker h a
      → total h' (a ∷ rest) ≡ total h (a ∷ rest)
  unfolding Links total
  Links-total a [] l m = let same = kept a m in rw same refl
  Links-total a (b ∷ rest) (_, _, mb, l) m =
      let same = kept a m in
      rw same (ap (λ (n : ℕ). clear_mask (h.size a) + n) (Links-total b rest l mb))

  Links-Sized :
      (a : ℕ) (rest : List ℕ)
      → Links h a rest
      → IsMarker h a
      → Sized h (a ∷ rest)
      → Sized h' (a ∷ rest)
  unfolding Links Sized
  Links-Sized a [] l m (pos, _) = let same = kept a m in (rw same pos, tt)
  Links-Sized a (b ∷ rest) (_, _, mb, l) m (pos, sized) =
      let same = kept a m in (rw same pos, Links-Sized b rest l mb sized)

same_blocks :
    (h h' : Heap) (c : HeapConfig) (ms : List ℕ) (size new : ℕ)
    → IsHeap h ms
    → find_place (c.heap_bookeeping_size / 4) h h.bstart_addr ≡ some new
    → ((x : ℕ) → h'.size x ≡ update h.size new size x)
    → Sized h ms
    → (total h' ms ≡ total h ms) × Sized h' ms
unfolding Markers total Sized
same_blocks h h' c [] size new ok found sizes sized = (refl, tt)
same_blocks h h' c (a ∷ rest) size new ok found sizes sized =
    let (_, m, l) = ok.markers in
    let (empty, _, _, _) = find_place-IsPlace _ h h.bstart_addr new ok.aligned ok.in_range found in
    let kept : (x : ℕ) → IsMarker h x → h'.size x ≡ h.size x =
      λ x mx. sizes x ∙ update_ne h.size new size x (not_empty h x new mx.0 empty) in
    (Links-total h h' kept a rest l m, Links-Sized h h' kept a rest l m sized)

-- Where no marker suits a size above 0 and below 2 ^ 15 and a place for a marker is found, in a heap above address 0 whose blocks
-- have a byte each and end below 2 ^ 32, that has fewer than 2 ^ 32 - 1 markers and a 32-bit number of bytes that remain:
-- svc_service_gheap_allocate ends and returns the address behind all blocks, with one more marker in the list, and
-- svc_service_gheap_release of that address ends and returns ERROR_NONE, with the list of markers and the number of bytes that
-- remain as they were before both.
pub svc_service_gheap_allocate-svc_service_gheap_release :
    (c : HeapConfig) (h : Heap) (ms : List ℕ) (size new : ℕ)
    → IsHeap h ms
    → 0 < size
    → size < 32768
    → h.blist_size < 4294967295
    → 0 < h.hstart_addr
    → h.hstart_addr + total h ms < 4294967296
    → h.heap_remaining < 4294967296
    → Sized h ms
    → NoneSuits h size ms
    → find_place (c.heap_bookeeping_size / 4) h h.bstart_addr ≡ some new
    → (h' h'' : Heap) × (svc_service_gheap_allocate c h size
        ≡ some (h', h.hstart_addr + total h ms))
      × (svc_service_gheap_release h' (h.hstart_addr + total h ms) ≡ some (h'', error_none))
      × IsHeap h' (ms ++ (new ∷ []))
      × IsHeap h'' ms
      × (h''.heap_remaining ≡ h.heap_remaining)
svc_service_gheap_allocate-svc_service_gheap_release c h ms size new ok pos small room above below
      range sized unfit found =
    let (h', allocated, ok', start, remaining, sizes) =
      svc_service_gheap_allocate_append c h ms size new ok pos small room above below unfit found in
    let (same, sized') = same_blocks h h' c ms size new ok found sizes sized in
    let room' : h'.blist_size < 4294967296 =
      omega (arith, ok.counted, ok'.counted, room, length-append {0} ms (new ∷ [])) in
    let (h'', released, ok'', more) =
      svc_service_gheap_release_last h' new ms ok' room' sized'
        (omega (arith, start, same, below)) in
    let at_new : h'.size new ≡ size = sizes new ∙ update_self h.size new size in
    (
      h',
      h'',
      allocated,
      subst (λ x. svc_service_gheap_release h' x ≡ some (h'', error_none))
          (omega (arith, start, same)) released,
      ok',
      ok'',
      omega (arith, more, at_new, remaining, small, range),
    )
