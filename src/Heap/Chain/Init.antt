-- ===== src/Heap/Chain/Init.antt =====
-- The heap that `heap_init` of src/heap.c leaves.
use skibios.Prelude.{
  ℕ, zero, suc, ◌+◌, ◌-◌, ◌*◌, ◌%◌, ◌<◌, ◌≤◌, ◌≡◌, inl, inr, refl, true, Bool-cases, ==_self, [],
  ◌==◌, arith, u32,
}
use skibios.Heap.{Heap, HeapConfig, is_empty, clear_marker, clear_region, heap_init}
use skibios.Heap.Chain.{Markers, IsHeap}

clear_marker-is_empty :
    (h : Heap) (a b : ℕ) → is_empty h a ≡ true → is_empty (clear_marker b h) a ≡ true
clear_marker-is_empty h a b e = elim (Bool-cases (a == b)) [
  | inl same ↦ rw same refl
  | inr other ↦ rw other e
]

clear_region-is_empty :
    (n start a : ℕ) (h : Heap) → is_empty h a ≡ true → is_empty (clear_region n start h) a ≡ true
unfolding clear_region
clear_region-is_empty zero start a h e = e
clear_region-is_empty (suc n) start a h e =
    clear_region-is_empty n start a _ (clear_marker-is_empty h a _ e)

clear_region_clears :
    (n start i : ℕ) (h : Heap)
    → 0 < i
    → i ≤ n
    → is_empty (clear_region n start h) (u32 (start + i * 4)) ≡ true
unfolding clear_region
clear_region_clears zero start i h pos le = absurd (omega (arith, pos, le))
clear_region_clears (suc n) start i h pos le = elim (Bool-cases (i == suc n)) [
  | inl e ↦
      let same : i ≡ suc n = ground (arith, e) in
      rw same (
        clear_region-is_empty n start (u32 (start + suc n * 4)) _
          (rw (==_self (u32 (start + suc n * 4))) refl))
  | inr ne ↦ clear_region_clears n start i _ pos (ground (arith, le, ne))
]

-- With a bookkeeping region of at least two aligned words below 2 ^ 32, heap_init leaves a heap without markers, whatever the
-- variables and the words held before.
pub heap_init-IsHeap :
    (c : HeapConfig) (h : Heap)
    → 2 ≤ c.heap_bookeeping_size
    → c.ghmb_addr % 4 ≡ 0
    → c.ghmb_addr + c.heap_bookeeping_size * 4 < 4294967296
    → IsHeap (heap_init c h) []
unfolding heap_init Markers
heap_init-IsHeap c h two aligned below =
    let last : u32 (c.ghmb_addr + c.heap_bookeeping_size * 4 - 4)
        ≡ u32 (c.ghmb_addr + (c.heap_bookeeping_size - 1) * 4) =
      omega (arith, two) in
    let empty : is_empty (heap_init c h) (heap_init c h).fsll_start ≡ true = rw last (
      clear_region_clears c.heap_bookeeping_size c.ghmb_addr (c.heap_bookeeping_size - 1) h
        (omega (arith, two)) (omega arith)) in
    record {
      markers = (refl, empty);
      at_bstart = refl;
      aligned = omega (arith, aligned, two, below);
      in_range = omega arith;
      hstart_in_range = omega arith;
      ended = ground (arith, empty);
      counted = refl;
    }
