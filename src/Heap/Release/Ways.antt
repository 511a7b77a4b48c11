-- ===== src/Heap/Release/Ways.antt =====
-- The ways in which `release_allocated_marker` of src/heap.c makes a marker free.
use skibios.Prelude.{
  ℕ, ◌+◌, ◌<◌, ◌≤◌, ◌≡◌, ◌≢◌, ◌⊎◌, inl, inr, refl, ap, true, false, Bool-cases, ==_ne, ==_self,
  List, ◌∷◌, ◌++◌, leb, ◌==◌, if◌then◌else◌, arith, u32, u16, sub32, update, update_ne,
}
use skibios.Heap.{
  Heap, is_free, clear_mask, set_mask, sext16, next_marker, distance, fits_offset, set_size,
  set_offset, clear_marker,
}
use skibios.Heap.Chain.{IsHeap}
use skibios.Heap.Chain.{total}
use skibios.Heap.Chain.Change.{remaining_lem}
use skibios.Heap.Search.Split.{kept_lem}
use skibios.Heap.Release.{Freed, free_marker}

-- The marker is free, and its bytes remain.
abbrev pub freed : Heap → ℕ → Heap
freed h m =
    set_size m (set_mask (h.size m))
      (record h { heap_remaining = u32 (h.heap_remaining + clear_mask (h.size m)) })

-- The three ways: the marker keeps the one behind it, takes it in, or keeps it and has the sum of both in R3.
pub free_marker_kept :
    (h : Heap) (m n : ℕ)
    → (h.offset m == 0) ≡ false
    → next_marker h m ≡ n
    → is_free (h.size n) ≡ false
    → n ≢ m
    → free_marker h m
      ≡ record { heap = freed h m; header = set_mask (h.size m); count = h.blist_size }
unfolding free_marker
free_marker_kept h m n d nx nf ne = rw (d, nx, ==_ne n m ne, nf) refl

abbrev pub taken_in : Heap → ℕ → ℕ → ℕ → ℕ → Heap
taken_in h m n sum to_next = clear_marker n (set_size m sum (set_offset m to_next (freed h m)))

pub free_marker_free :
    (h : Heap) (m n sum to_next : ℕ)
    → (h.offset m == 0) ≡ false
    → next_marker h m ≡ n
    → is_free (h.size n) ≡ true
    → n ≢ m
    → set_mask (h.size m) + clear_mask (h.size n) ≡ sum
    → u32 (distance n m + sext16 (h.offset n)) ≡ to_next
    → free_marker h m ≡ (
        if leb 0xFFFF sum
        then record { heap = freed h m; header = sum; count = h.blist_size }
        else (if fits_offset to_next
            then record {
              heap = taken_in h m n sum to_next;
              header = sum;
              count = sub32 h.blist_size 1;
            }
            else record { heap = freed h m; header = sum; count = h.blist_size }))
unfolding free_marker
free_marker_free h m n sum to_next d nx free ne es et = rw (d, nx, ==_ne n m ne, free, es, et) refl

-- The heap with the count of its markers.
abbrev pub done : Freed → Heap
done f = record f.heap { blist_size = f.count }

pub freed-IsHeap :
    (h : Heap) (m : ℕ) (front r : List ℕ)
    → IsHeap h (front ++ (m ∷ r))
    → IsHeap (freed h m) (front ++ (m ∷ r))
freed-IsHeap h m front r ok =
    let sizes : (y : ℕ) → y ≢ m → update h.size m (u16 (set_mask (h.size m))) y ≡ h.size y =
      update_ne h.size m _ in
    let at_m : 0 < update h.size m (u16 (set_mask (h.size m))) m = rw (==_self m) (omega arith) in
    remaining_lem (record h { size = update h.size m (u16 (set_mask (h.size m))) }) _ m front r
      (kept_lem h m front r (update h.size m (u16 (set_mask (h.size m)))) h.offset ok sizes
        (λ y. refl) at_m)

-- The sizes fit a marker, and the offset fits where the one behind is free.
abbrev pub Exact : Heap → ℕ → ℕ → Type 0
Exact h m n =
    ((is_free (h.size n) ≡ false) ⊎ (fits_offset (u32 (distance n m + sext16 (h.offset n))) ≡ true))
    × (clear_mask (h.size m) + clear_mask (h.size n) < 32767)

-- No byte is lost, and R3 holds the size that the marker has.
abbrev pub SameBytes : Heap → Freed → ℕ → ℕ → List ℕ → List ℕ → Type 0
SameBytes h f m n ms ms' =
    (f.header ≡ 32768 + clear_mask (f.heap.size m))
    × (clear_mask (f.heap.size m) ≤ clear_mask (h.size m) + clear_mask (h.size n))
    × ((y : ℕ) → y ≢ m → clear_mask (f.heap.size y) ≤ clear_mask (h.size y))
    × (total (done f) ms' ≡ total h ms)

pub freed_same : (h : Heap) (m y : ℕ) → clear_mask ((freed h m).size y) ≡ clear_mask (h.size y)
freed_same h m y = elim (Bool-cases (y == m)) [
  | inl e ↦ let same : y ≡ m = ground (arith, e) in rw e (omega (arith, ap h.size same))
  | inr e ↦ rw e refl
]
