-- ===== src/Heap/Release/Join.antt =====
-- How `release_allocated_marker` of src/heap.c joins a marker with the one before it.
use skibios.Prelude.{
  ℕ, ◌+◌, ◌<◌, ◌≡◌, ◌⊎◌, inl, inr, refl, sym, subst, false, Bool-cases, List, ◌∷◌, ◌++◌, arith, u32,
  sub32,
}
use skibios.Heap.{
  is_free, clear_mask, sext16, distance, fits_offset, is_empty, set_size, set_offset, clear_marker,
}
use skibios.Heap.Chain.{Links, IsHeap, total}
use skibios.Heap.Chain.Change.{Markers-at}
use skibios.Heap.Release.{Freed, join_before}
use skibios.Heap.Release.Absorb.{absorbed-IsHeap, absorbed-total}
use skibios.Heap.Release.Ways.{done}

-- R3 holds the size of the marker, and the sum with the one before it fits a marker.
abbrev pub Joins : Freed → ℕ → ℕ → Type 0
Joins f p m =
    (f.header ≡ 32768 + clear_mask (f.heap.size m))
    × (clear_mask (f.heap.size p) + clear_mask (f.heap.size m) < 32768)

abbrev pub JoinedTo : Freed → Freed → ℕ → ℕ → List ℕ → List ℕ → Type 0
JoinedTo f g p m ms ms' =
    IsHeap (done g) ms' × (Joins f p m → total (done g) ms' ≡ total (done f) ms)

-- The marker before a free one keeps it, or takes it in.
abbrev pub JoinedList : Freed → Freed → ℕ → ℕ → List ℕ → List ℕ → Type 0
JoinedList f g p m front r =
    (JoinedTo f g p m (front ++ (p ∷ m ∷ r)) (front ++ (p ∷ m ∷ r))
      ⊎ JoinedTo f g p m (front ++ (p ∷ m ∷ r)) (front ++ (p ∷ r)))
    × (g.heap.heap_remaining ≡ f.heap.heap_remaining)

module _ (f : Freed) (p m x : ℕ) (front rest : List ℕ)
    (ok : IsHeap (done f) (front ++ (p ∷ m ∷ x ∷ rest))) (room : f.count < 4294967296) where
  m_used : is_empty f.heap m ≡ false
  unfolding Links
  m_used = (Markers-at (done f) p front (m ∷ x ∷ rest) ok.markers).1.2.0

  abbrev joined : Freed
  joined =
      let sum = f.header + clear_mask (f.heap.size p) in
      let to_next = u32 (distance m p + sext16 (f.heap.offset m)) in
      record {
        heap = clear_marker m (set_size p sum (set_offset p to_next f.heap));
        header = sum;
        count = sub32 f.count 1;
      }

  pub join_before-JoinedList :
      (g : Freed) → g ≡ join_before f m p → JoinedList f g p m front (x ∷ rest)
  unfolding join_before
  join_before-JoinedList g e = elim (Bool-cases (is_free (f.heap.size p))) [
    | inl free ↦ elim (Bool-cases (fits_offset (u32 (distance m p + sext16 (f.heap.offset m))))) [
      | inl fits ↦
          let way : g ≡ joined = rw (m_used, free, fits) at e in
          subst (λ y. JoinedList f y p m front (x ∷ rest)) (sym way)
            (
              inr (
                absorbed-IsHeap (done f) p m x front rest ok _ room fits,
                (λ j. absorbed-total (done f) p m x front rest ok _ (omega (arith, j.0, j.1))),
              ),
              refl,
            )
      | inr far ↦ stays (rw (m_used, free, far) at e)
    ]
    | inr used ↦ stays (rw (m_used, used) at e)
  ]
    where
      stays : g ≡ f → JoinedList f g p m front (x ∷ rest)
      stays way =
          subst (λ y. JoinedList f y p m front (x ∷ rest)) (sym way) (inl (ok, (λ j. refl)), refl)
