-- ===== src/Heap/Release/Outer.antt =====
-- What `release_allocated_marker` of src/heap.c does with the last block.
use skibios.Prelude.{
  ℕ, ◌+◌, ◌<◌, ◌≡◌, ◌≢◌, inl, inr, refl, sym, ap, subst, ◌∙◌, true, ==_ne, ==_self, List, [], ◌∷◌,
  ◌++◌, length-append, some, ◌==◌, arith, u32, u16, sub32, update,
}
use mathlib.Core.List.{append_assoc}
use skibios.Heap.{Heap, clear_mask, set_mask, next_marker, is_empty, set_offset, clear_marker}
use skibios.Heap.Chain.{IsMarker, Links, Markers, IsHeap, total}
use skibios.Heap.Chain.Change.{KeepsOut, Links-ne, Markers-at, Markers-replace}
use skibios.Heap.Release.{Freed, find_block, free_marker, join_before, release_allocated_marker}
use skibios.Heap.Release.Walk.{Sized, find_block-IsHeap, find_before-Markers, Markers-start_ne}
use skibios.Heap.Release.Ways.{done, freed}
use skibios.Heap.Release.Inner.{release_first, release_behind, list_cases}

-- The marker is emptied.
free_marker_last :
    (h : Heap) (m : ℕ)
    → h.offset m ≡ 0
    → free_marker h m ≡ record {
      heap = clear_marker m (freed h m);
      header = set_mask (h.size m);
      count = sub32 h.blist_size 1;
    }
unfolding free_marker
free_marker_last h m e = let at_m : (h.offset m == 0) ≡ true = rw e refl in rw at_m refl

-- The one before the emptied marker becomes the last one.
abbrev shortened : Heap → ℕ → ℕ → Heap
shortened h p m = record h {
  blist_size = sub32 h.blist_size 1;
  heap_remaining = u32 (h.heap_remaining + clear_mask (h.size m));
  fsll_end = p;
  size = update (update h.size m (u16 (set_mask (h.size m)))) m 0;
  offset = update (update h.offset m 0) p 0;
}

module _ (h : Heap) (p m : ℕ) (front : List ℕ) (ok : IsHeap h (front ++ (p ∷ m ∷ [])))
    (size_p : h.size p ≢ 0) (room : h.blist_size < 4294967296) where
  at_p : IsMarker h p × Links h p (m ∷ [])
  at_p = Markers-at h p front (m ∷ []) ok.markers

  shortened-KeepsOut : KeepsOut 0 1 h (shortened h p m)
  unfolding Links
  shortened-KeepsOut y r (used, y4, y32) l out =
      let (_, lp) = at_p in
      let ne_p : y ≢ p =
        Links-ne h y p r (m ∷ []) l lp
          (λ e. elim out [ inl less ↦ omega (arith, less) | inr over ↦ omega (arith, over, e) ]) in
      let ne_m : y ≢ m =
        Links-ne h y m r [] l lp.3
          (λ e. elim out [ inl less ↦ omega (arith, less) | inr over ↦ omega (arith, over, e) ]) in
      (
        (rw (==_ne y m ne_m, ==_ne y p ne_p) used, y4, y32),
        rw (==_ne y m ne_m, ==_ne y p ne_p) refl,
        (λ e. absurd (ne_m (e ∙ sym lp.3))),
        (λ e. absurd (ne_p e)),
      )

  shortened-IsHeap : IsHeap (shortened h p m) (front ++ (p ∷ []))
  unfolding Links
  shortened-IsHeap =
      let ((used, p4, p32), lp) = at_p in
      let p_ne : p ≢ m = Links-ne h p m (m ∷ []) [] lp lp.3 (omega arith) in
      record {
        markers =
            Markers-replace h (shortened h p m) 0 1 p front (m ∷ []) [] shortened-KeepsOut
              (omega arith) refl (rw (==_ne p m p_ne, ==_ne (h.size p) 0 size_p) refl, p4, p32) refl
              ok.markers;
        at_bstart = ok.at_bstart;
        aligned = ok.aligned;
        in_range = ok.in_range;
        hstart_in_range = ok.hstart_in_range;
        ended = rw (==_self p) refl;
        counted = omega (
          arith,
          room,
          ok.counted,
          length-append {0} front (p ∷ m ∷ []),
          length-append {0} front (p ∷ []),
        );
      }

abbrev shorten : Freed → ℕ → Heap
shorten f p = record (set_offset p 0 f.heap) { fsll_end = p; blist_size = f.count }

abbrev pub ReleasedLast : Heap → ℕ → ℕ → List ℕ → Type 0
ReleasedLast h address m front =
    (h' : Heap) × (release_allocated_marker h address ≡ some (h', h'.blist_size))
    × IsHeap h' front
    × (h'.heap_remaining ≡ u32 (h.heap_remaining + clear_mask (h.size m)))

Sized-last : (h : Heap) (p : ℕ) (front : List ℕ) → Sized h (front ++ (p ∷ [])) → h.size p ≢ 0
unfolding Sized
Sized-last h p [] (pos, _) = λ e. absurd (omega (arith, pos, e))
Sized-last h p (a ∷ front) (_, sized) = Sized-last h p front sized

module _ (h : Heap) (m : ℕ) (room : h.blist_size < 4294967296) where
  emptied :
      IsHeap h (m ∷ [])
      → IsHeap (record (clear_marker m (freed h m)) { blist_size = sub32 h.blist_size 1 }) []
  unfolding Links Markers
  emptied ok =
      let (start, mm, end) = ok.markers in
      let at_start : (h.fsll_start == m) ≡ true = ap (λ (x : ℕ). x == m) start ∙ ==_self m in
      let at_end : (h.fsll_end == m) ≡ true = ap (λ (x : ℕ). x == m) (sym end) ∙ ==_self m in
      record {
        markers = (sym end ∙ sym start, rw at_start refl);
        at_bstart = ok.at_bstart;
        aligned = ok.aligned;
        in_range = ok.in_range;
        hstart_in_range = ok.hstart_in_range;
        ended = rw at_end refl;
        counted = omega (arith, ok.counted);
      }

  last_only :
      (address : ℕ)
      → IsHeap h (m ∷ [])
      → find_block h.blist_size h address h.fsll_start h.hstart_addr ≡ some m
      → ReleasedLast h address m []
  unfolding Links Markers
  last_only address ok found =
      let (start, mm, end) = ok.markers in
      let e : h.offset m ≡ 0 = ap h.offset end ∙ ok.ended in
      let way = free_marker_last h m e in
      (
        done (free_marker h m),
        release_first h m address found (ap (λ (f : Freed). f.heap.fsll_start) way ∙ start),
        subst (λ (f : Freed). IsHeap (done f) []) (sym way) (emptied ok),
        ap (λ (f : Freed). f.heap.heap_remaining) way,
      )

  last_behind :
      (address p : ℕ) (front : List ℕ)
      → IsHeap h (front ++ (p ∷ m ∷ []))
      → h.size p ≢ 0
      → find_block h.blist_size h address h.fsll_start h.hstart_addr ≡ some m
      → ReleasedLast h address m (front ++ (p ∷ []))
  unfolding Links join_before
  last_behind address p front ok size_p found =
      let (_, lp) = Markers-at h p front (m ∷ []) ok.markers in
      let e : h.offset m ≡ 0 = ap h.offset lp.3 ∙ ok.ended in
      let way = free_marker_last h m e in
      let start : (free_marker h m).heap.fsll_start ≡ h.fsll_start =
        ap (λ (f : Freed). f.heap.fsll_start) way in
      let same : (y : ℕ) → y ≢ m → next_marker (free_marker h m).heap y ≡ next_marker h y =
        λ y ne. ap (λ (f : Freed). next_marker f.heap y) way ∙ rw (==_ne y m ne) refl in
      let empty : is_empty (free_marker h m).heap m ≡ true =
        ap (λ (f : Freed). is_empty f.heap m) way ∙ rw (==_self m) refl in
      let joined : done (join_before (free_marker h m) m p) ≡ shortened h p m =
        rw empty (ap (λ (f : Freed). shorten f p) way) in
      (
        done (join_before (free_marker h m) m p),
        release_behind h m p address found
            (λ q. Markers-start_ne h p m front [] ok.markers (sym start ∙ q))
            (find_before-Markers h (free_marker h m).heap p m front [] same ok.markers start
              (h.blist_size + 1) (omega (arith, ok.counted))),
        subst (λ x. IsHeap x (front ++ (p ∷ []))) (sym joined)
            (shortened-IsHeap h p m front ok size_p room),
        ap (λ (x : Heap). x.heap_remaining) joined,
      )

pub release_allocated_marker-ReleasedLast :
    (h : Heap) (m : ℕ) (front : List ℕ)
    → IsHeap h (front ++ (m ∷ []))
    → h.blist_size < 4294967296
    → Sized h front
    → h.hstart_addr + total h front < 4294967296
    → ReleasedLast h (h.hstart_addr + total h front) m front
release_allocated_marker-ReleasedLast h m front ok room sized below =
    let found = find_block-IsHeap h m front [] ok sized below in
    elim (list_cases front) [
      | inl e ↦
          subst (λ l. ReleasedLast h (h.hstart_addr + total h front) m l) (sym e)
            (last_only h m room _ (subst (λ l. IsHeap h (l ++ (m ∷ []))) e ok) found)
      | inr (before, p, e) ↦
          let ok' : IsHeap h ((before ++ (p ∷ [])) ++ (m ∷ [])) =
            subst (λ l. IsHeap h (l ++ (m ∷ []))) e ok in
          subst (λ l. ReleasedLast h (h.hstart_addr + total h front) m l) (sym e)
            (last_behind h m room _ p before
              (subst (λ l. IsHeap h l) (append_assoc before (p ∷ []) (m ∷ [])) ok')
              (Sized-last h p before (subst (λ l. Sized h l) e sized)) found)
    ]
