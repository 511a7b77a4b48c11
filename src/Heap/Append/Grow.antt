-- ===== src/Heap/Append/Grow.antt =====
-- What `add_new_allocated_marker` of src/heap.c does to the list of markers.
use skibios.Prelude.{
  ℕ, ◌+◌, ◌/◌, ◌%◌, ◌<◌, ◌≡◌, ◌≢◌, inl, inr, refl, sym, subst, ap, ◌∙◌, true, false, Bool-cases,
  some, List, [], ◌∷◌, ◌++◌, length-append, ◌==◌, ◌&&◌, update, arith, u16, u32,
}
use skibios.Prelude.{==_ne, ==_self}
use skibios.Heap.{Heap, HeapConfig, next_marker, distance, is_empty, set_size, set_offset}
use skibios.Heap.Chain.{Same, IsMarker, Links, Markers, IsHeap, total, step_to}
use skibios.Heap.Chain.Change.{Links-end, not_empty}
use skibios.Heap.Append.{find_place, block_address, add_new_allocated_marker}
use skibios.Heap.Append.Place.{IsPlace, find_place-IsPlace, place_first, distance_self}
use skibios.Heap.Append.Walk.{Keeps, Links-grown, block_address-total, block_first}

-- The two stores and the new end.
abbrev grown : Heap → ℕ → ℕ → Heap
grown h size new =
    let linked = set_offset h.fsll_end (distance new h.fsll_end) (set_size new size h) in
    record linked { fsll_end = new }

is_empty-offset : (h : Heap) (a : ℕ) → is_empty h a ≡ true → h.offset a ≡ 0
is_empty-offset h a empty = ground arith

grown_next :
    (h : Heap) (size new : ℕ)
    → IsMarker h h.fsll_end
    → IsPlace h new
    → next_marker (grown h size new) h.fsll_end ≡ new
grown_next h size new (_, e4, e32) (empty, fits, n4, n32) =
    rw (==_self h.fsll_end) (step_to new h.fsll_end n4 e4 n32 e32 fits)

-- A word in use is not emptied: the last marker has no offset yet, so it has a size.
stays_used :
    (h : Heap) (m offset : ℕ)
    → h.offset h.fsll_end ≡ 0
    → is_empty h m ≡ false
    → ((h.size m == 0) && (update h.offset h.fsll_end offset m == 0)) ≡ false
stays_used h m offset ended used = elim (Bool-cases (m == h.fsll_end)) [
  | inl e ↦
      let at_end : m ≡ h.fsll_end = ground (arith, e) in
      let no_offset : h.offset m ≡ 0 = ap h.offset at_end ∙ ended in ground (arith, no_offset, used)
  | inr e ↦ rw e used
]

grown-Keeps :
    (h : Heap) (size new : ℕ)
    → h.offset h.fsll_end ≡ 0
    → IsPlace h new
    → Keeps h (grown h size new) new
grown-Keeps h size new ended (empty, fits, _, _) m (used, m4, m32) =
    let ne : m ≢ new = not_empty h m new used empty in
    let at_m : (m == new) ≡ false = ==_ne m new ne in
    (
      ne,
      (rw at_m (stays_used h m _ ended used), m4, m32),
      (λ last. rw (==_ne m h.fsll_end last) refl),
      rw at_m refl,
    )

grown_used :
    (h : Heap) (size new : ℕ) → 0 < size → size < 32768 → is_empty (grown h size new) new ≡ false
grown_used h size new pos small = rw (==_self new) (ground arith)

grown_ended :
    (h : Heap) (size new : ℕ)
    → IsMarker h h.fsll_end
    → IsPlace h new
    → (grown h size new).offset new ≡ 0
grown_ended h size new (used, _, _) (empty, _, _, _) =
    let ne : h.fsll_end ≢ new = not_empty h h.fsll_end new used empty in
    rw (==_ne new h.fsll_end (λ p. ne (sym p))) (is_empty-offset h new empty)

grown_first : (h : Heap) (size new : ℕ) → h.fsll_end ≡ new → (grown h size new).offset new ≡ 0
grown_first h size new e = rw e (rw (==_self new, distance_self new) refl)

cut_size : (size : ℕ) → size < 32768 → u16 size ≡ size
cut_size size small = omega (arith, small)

abbrev appended : Heap → ℕ → ℕ → Heap
appended h size new = record (grown h size new) { blist_size = u32 (h.blist_size + 1) }

add_result :
    (c : HeapConfig) (h : Heap) (size new address : ℕ)
    → find_place (c.heap_bookeeping_size / 4) h h.bstart_addr ≡ some new
    → block_address (h.blist_size + 1) (grown h size new) new h.fsll_start h.hstart_addr
      ≡ some address
    → add_new_allocated_marker c h size ≡ some (appended h size new, address)
unfolding add_new_allocated_marker
add_result c h size new address found walked = rw (found, walked, add_new_allocated_marker) refl

-- Where a place is found, a new marker with the size goes behind all others, and the address is the one behind all blocks.
pub add_new_allocated_marker-IsHeap :
    (c : HeapConfig) (h : Heap) (ms : List ℕ) (size new : ℕ)
    → IsHeap h ms
    → 0 < size
    → size < 32768
    → h.blist_size < 4294967295
    → find_place (c.heap_bookeeping_size / 4) h h.bstart_addr ≡ some new
    → (h' : Heap) × (add_new_allocated_marker c h size
        ≡ some (h', u32 (h.hstart_addr + total h ms)))
      × IsHeap h' (ms ++ (new ∷ []))
      × Same h h'
      × ((x : ℕ) → h'.size x ≡ update h.size new size x)
unfolding Markers Links total block_address
add_new_allocated_marker-IsHeap c h [] size new ok pos small room found =
    let (last, empty) = ok.markers in
    let same : h.bstart_addr ≡ new =
      place_first _ h h.bstart_addr new (subst (λ x. is_empty h x ≡ true) ok.at_bstart empty)
        (sym (last ∙ ok.at_bstart)) found in
    let start : h.fsll_start ≡ new = ok.at_bstart ∙ same in
    (
      appended h size new,
      add_result c h size new _ found (
          block_first _ (grown h size new) new h.fsll_start h.hstart_addr start
          ∙ ap some (omega (arith, ok.hstart_in_range))),
      record {
        markers = (
          start,
          (
            grown_used h size new pos small,
            subst (λ x. x % 4 ≡ 0) same ok.aligned,
            subst (λ x. x < 4294967296) same ok.in_range,
          ),
          refl,
        );
        at_bstart = ok.at_bstart;
        aligned = ok.aligned;
        in_range = ok.in_range;
        hstart_in_range = ok.hstart_in_range;
        ended = grown_first h size new (last ∙ start);
        counted = omega (arith, ok.counted);
      },
      (refl, refl),
      (λ x. ap (λ (v : ℕ). update h.size new v x) (cut_size size small)),
    )
add_new_allocated_marker-IsHeap c h (a ∷ rest) size new ok pos small room found =
    let (start, m, l) = ok.markers in
    let place = find_place-IsPlace _ h h.bstart_addr new ok.aligned ok.in_range found in
    let last = Links-end h a rest l m in
    let keeps = grown-Keeps h size new ok.ended place in
    let nx = grown_next h size new last place in
    let (empty, _, n4, n32) = place in
    let m' : IsMarker (grown h size new) new = (grown_used h size new pos small, n4, n32) in
    let (_, ma, _, _) = keeps a m in
    (
      appended h size new,
      add_result c h size new _ found (
          subst
            (λ x.
              block_address (h.blist_size + 1) (grown h size new) new x h.hstart_addr
              ≡ some (u32 (h.hstart_addr + total h (a ∷ rest))))
            (sym start)
            (block_address-total h (grown h size new) new a rest (h.blist_size + 1) h.hstart_addr
              keeps nx l m (omega (arith, ok.counted)))),
      record {
        markers = (start, ma, Links-grown h (appended h size new) new a rest keeps nx m' refl l m);
        at_bstart = ok.at_bstart;
        aligned = ok.aligned;
        in_range = ok.in_range;
        hstart_in_range = ok.hstart_in_range;
        ended = grown_ended h size new last place;
        counted = omega (arith, ok.counted, room, length-append {0} rest (new ∷ []));
      },
      (refl, refl),
      (λ x. ap (λ (v : ℕ). update h.size new v x) (cut_size size small)),
    )
