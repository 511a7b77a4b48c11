-- ===== src/Heap/Search/Last.antt =====
-- What `search_free_marker` of src/heap.c makes of a free marker that is the last one.
use skibios.Prelude.{
  ℕ, ◌+◌, ◌<◌, ◌≡◌, ◌≢◌, refl, sym, ap, ◌∙◌, true, false, ==_ne, ==_self, some, List, [], ◌∷◌, ◌++◌,
  ◌==◌, arith, u32, u16, sub32, update,
}
use skibios.Heap.{
  Heap, HeapConfig, clear_mask, set_mask, sext16, next_marker, distance, fits_offset,
}
use skibios.Heap.Chain.{Links, IsHeap, total, step_to}
use skibios.Heap.Chain.Change.{Markers-at, not_empty}
use skibios.Heap.Search.{find_space, split_marker, take_marker, search_free_marker}
use skibios.Heap.Search.Fit.{suits, NoneSuits, find_free_first}
use skibios.Heap.Search.Split.{find_space_lem}
use skibios.Heap.Search.Take.{search_takes}

-- The two markers lead to each other, and the first of them is still the last one of the heap.
abbrev pub Cycle : Heap → ℕ → ℕ → Type 0
Cycle h m s = (next_marker h m ≡ s) × (next_marker h s ≡ m) × (h.fsll_end ≡ m)

module _ (c : HeapConfig) (h : Heap) (m s size : ℕ) (front : List ℕ)
    (ok : IsHeap h (front ++ (m ∷ []))) (more : size < clear_mask (h.size m))
    (found : find_space c.heap_bookeeping_size h ≡ some s)
    (fits_next : fits_offset (distance m s) ≡ true)
    (fits_split : fits_offset (distance s m) ≡ true) where
  abbrev split : Heap
  split = record h {
    blist_size = u32 (h.blist_size + 1);
    size =
        update (update h.size s (u16 (set_mask (sub32 (clear_mask (h.size m)) size)))) m (u16 size);
    offset = update (update h.offset s (u16 (distance m s))) m (u16 (distance s m));
  }

  no_offset : h.offset m ≡ 0
  unfolding Links
  no_offset = ap h.offset (Markers-at h m front [] ok.markers).1 ∙ ok.ended

  taken : take_marker c h size m ≡ split
  unfolding take_marker split_marker
  taken =
      let rest : (sub32 (clear_mask (h.size m)) size == 0) ≡ false = ground (arith, more) in
      let same : u32 (distance m s + sext16 (h.offset m)) ≡ distance m s =
        rw no_offset (ground arith) in
      rw (rest, found, same, fits_next, fits_split) refl

  split-Cycle : Cycle split m s
  unfolding Links
  split-Cycle =
      let ((used, m4, m32), last) = Markers-at h m front [] ok.markers in
      let (empty, s4, s32) = find_space_lem _ h s ok.aligned found in
      let s_ne : s ≢ m = λ p. not_empty h m s used empty (sym p) in
      (
        rw (==_self m) (step_to s m s4 m4 s32 m32 fits_split),
        rw (==_ne s m s_ne, ==_self s) (step_to m s m4 s4 m32 s32 fits_next),
        sym last,
      )

  split_not-IsHeap : (ms : List ℕ) → ¬ IsHeap split ms
  unfolding Links
  split_not-IsHeap ms broken =
      let ((used, m4, m32), last) = Markers-at h m front [] ok.markers in
      let (empty, _, _) = find_space_lem _ h s ok.aligned found in
      let no_step : split.offset m ≡ 0 = ap split.offset last ∙ broken.ended in
      let (to_s, _, _) = split-Cycle in
      not_empty h m s used empty (sym (rw no_step (omega (arith, m32))) ∙ to_s)

-- Where the first free marker that is large enough for a size below 2 ^ 15 is the last one of the heap and larger than the size,
-- the search finds an empty word and the offsets between the two fit, search_free_marker returns the address of the block, but the
-- two markers then lead to each other, the first of them is still the last one of the heap, the count is one more,
-- and the markers are no longer a list from the first to the last, whatever list is tried.
pub search_free_marker-Cycle :
    (c : HeapConfig) (h : Heap) (m s size : ℕ) (front : List ℕ)
    → IsHeap h (front ++ (m ∷ []))
    → size < 32768
    → NoneSuits h size front
    → suits h size m ≡ true
    → size < clear_mask (h.size m)
    → find_space c.heap_bookeeping_size h ≡ some s
    → fits_offset (distance m s) ≡ true
    → fits_offset (distance s m) ≡ true
    → (h' : Heap) × (search_free_marker c h size ≡ (h', u32 (h.hstart_addr + total h front)))
      × Cycle h' m s
      × (h'.blist_size ≡ u32 (h.blist_size + 1))
      × ((ms : List ℕ) → ¬ IsHeap h' ms)
search_free_marker-Cycle c h m s size front ok small unfit fits more found fits_next fits_split = (
  split c h m s size front ok more found fits_next fits_split,
  search_takes c h size m _ (find_free_first h size m front [] ok small unfit fits)
      ∙ ap (λ (x : Heap). (x, u32 (h.hstart_addr + total h front)))
          (taken c h m s size front ok more found fits_next fits_split),
  split-Cycle c h m s size front ok more found fits_next fits_split,
  refl,
  split_not-IsHeap c h m s size front ok more found fits_next fits_split,
)
