-- ===== src/Heap/Release/Free.antt =====
-- What `release_allocated_marker` of src/heap.c makes of a marker that is not the last one, and of the one behind it.
use skibios.Prelude.{
  ℕ, ◌+◌, ◌<◌, ◌≡◌, ◌≢◌, ◌⊎◌, inl, inr, refl, sym, ap, subst, ◌∙◌, true, false, Bool-cases, ==_ne,
  ==_self, List, [], ◌∷◌, ◌++◌, leb, ◌==◌, arith, u32, u16, sub32,
}
use mathlib.Core.Bool.{false≢true}
use skibios.Heap.{Heap, is_free, clear_mask, set_mask, sext16, next_marker, distance, fits_offset}
use skibios.Heap.Chain.{IsMarker, Links, IsHeap}
use skibios.Heap.Chain.{total}
use skibios.Heap.Chain.Bytes.{total_ext}
use skibios.Heap.Chain.Change.{Links-ne, Markers-at}
use skibios.Heap.Release.{Freed, free_marker}
use skibios.Heap.Release.Absorb.{absorbed-IsHeap, absorbed-total}
use skibios.Heap.Release.Ways.{
  freed, free_marker_kept, taken_in, free_marker_free, done, freed-IsHeap, Exact, SameBytes,
  freed_same,
}

-- The markers from the one that is free now: with the one behind it, or without.
abbrev pub FreedList : Heap → Freed → ℕ → ℕ → List ℕ → List ℕ → Type 0
FreedList h f m n front r =
    (x : ℕ) × (rest : List ℕ) × IsHeap (done f) (front ++ (m ∷ x ∷ rest))
    × ((x ∷ rest ≡ n ∷ r) ⊎ (x ∷ rest ≡ r))
    × (f.heap.fsll_start ≡ h.fsll_start)
    × (f.count < 4294967296)
    × (f.heap.heap_remaining ≡ u32 (h.heap_remaining + clear_mask (h.size m)))
    × (Exact h m n → SameBytes h f m n (front ++ (m ∷ n ∷ r)) (front ++ (m ∷ x ∷ rest)))

next_nowhere : (h : Heap) (m : ℕ) → h.offset m ≡ 0 → m < 4294967296 → next_marker h m ≡ m
next_nowhere h m e m32 = rw e (omega (arith, m32))

Links-behind_not_last :
    (h : Heap) (n : ℕ) (r : List ℕ)
    → Links h n r
    → n ≢ h.fsll_end
    → (x : ℕ) × (rest : List ℕ) × (r ≡ x ∷ rest)
unfolding Links
Links-behind_not_last h n [] l ne = absurd (ne l)
Links-behind_not_last h n (x ∷ rest) l ne = (x, rest, refl)

module _ (h : Heap) (m n : ℕ) (front r : List ℕ) (ok : IsHeap h (front ++ (m ∷ n ∷ r)))
    (room : h.blist_size < 4294967296) where
  kept_bytes :
      (header : ℕ)
      → header ≡ set_mask (h.size m)
      → SameBytes h
          (record { heap = freed h m; header = header; count = h.blist_size })
          m
          n
          (front ++ (m ∷ n ∷ r))
          (front ++ (m ∷ n ∷ r))
  kept_bytes header right = (
    omega (arith, right, freed_same h m m),
    omega (arith, freed_same h m m),
    (λ y ne. omega (arith, freed_same h m y)),
    total_ext h (freed h m) (front ++ (m ∷ n ∷ r)) (freed_same h m),
  )

  keeps_next :
      (f : Freed) (header : ℕ)
      → f ≡ record { heap = freed h m; header = header; count = h.blist_size }
      → (Exact h m n → header ≡ set_mask (h.size m))
      → FreedList h f m n front r
  keeps_next f header e right =
      subst (λ x. FreedList h x m n front r) (sym e)
        (
          n,
          r,
          freed-IsHeap h m front (n ∷ r) ok,
          inl refl,
          refl,
          room,
          refl,
          (λ exact. kept_bytes header (right exact)),
        )

  taken_bytes :
      (sum x : ℕ) (rest : List ℕ)
      → r ≡ x ∷ rest
      → IsHeap (freed h m) (front ++ (m ∷ n ∷ x ∷ rest))
      → n ≢ m
      → sum ≡ set_mask (h.size m) + clear_mask (h.size n)
      → clear_mask (h.size m) + clear_mask (h.size n) < 32767
      → SameBytes h
          (record {
            heap = taken_in h m n sum (u32 (distance n m + sext16 (h.offset n)));
            header = sum;
            count = sub32 h.blist_size 1;
          })
          m
          n
          (front ++ (m ∷ n ∷ r))
          (front ++ (m ∷ x ∷ rest))
  taken_bytes sum x rest behind ok' ne both small =
      let m_ne : m ≢ n = λ e. ne (sym e) in
      let cut : clear_mask (u16 sum) ≡ clear_mask (h.size m) + clear_mask (h.size n) =
        omega (arith, both, small) in
      let in_freed : clear_mask (u16 sum)
          ≡ clear_mask ((freed h m).size m) + clear_mask ((freed h m).size n) =
        omega (arith, cut, freed_same h m m, freed_same h m n) in
      (
        rw (==_ne m n m_ne, ==_self m) (omega (arith, both, cut)),
        rw (==_ne m n m_ne, ==_self m) (omega (arith, cut)),
        (λ y y_ne. elim (Bool-cases (y == n)) [
          | inl e ↦ rw e (omega arith)
          | inr e ↦ rw (e, ==_ne y m y_ne) (omega arith)
        ]),
        absorbed-total (freed h m) m n x front rest ok' (u16 sum) in_freed
            ∙ total_ext h (freed h m) (front ++ (m ∷ n ∷ x ∷ rest)) (freed_same h m)
            ∙ ap (λ (l : List ℕ). total h (front ++ (m ∷ n ∷ l))) (sym behind),
      )

  takes_next :
      (f : Freed) (sum x : ℕ) (rest : List ℕ)
      → r ≡ x ∷ rest
      → f ≡ record {
        heap = taken_in h m n sum (u32 (distance n m + sext16 (h.offset n)));
        header = sum;
        count = sub32 h.blist_size 1;
      }
      → fits_offset (u32 (distance n m + sext16 (h.offset n))) ≡ true
      → n ≢ m
      → sum ≡ set_mask (h.size m) + clear_mask (h.size n)
      → FreedList h f m n front r
  takes_next f sum x rest behind e fits ne both =
      let ok' : IsHeap (freed h m) (front ++ (m ∷ n ∷ x ∷ rest)) =
        subst (λ l. IsHeap (freed h m) (front ++ (m ∷ n ∷ l))) behind
          (freed-IsHeap h m front (n ∷ r) ok) in
      subst (λ y. FreedList h y m n front r) (sym e)
        (
          x,
          rest,
          absorbed-IsHeap (freed h m) m n x front rest ok' (u16 sum) room fits,
          inr (sym behind),
          refl,
          omega arith,
          refl,
          (λ exact. taken_bytes sum x rest behind ok' ne both exact.1),
        )

  free_next :
      IsMarker h n
      → Links h n r
      → next_marker h m ≡ n
      → n ≢ m
      → (h.offset m == 0) ≡ false
      → is_free (h.size n) ≡ true
      → n ≢ h.fsll_end
      → FreedList h (free_marker h m) m n front r
  free_next mn ln nx ne d free ne_end =
      let sum = set_mask (h.size m) + clear_mask (h.size n) in
      let to_next = u32 (distance n m + sext16 (h.offset n)) in
      let way = free_marker_free h m n sum to_next d nx free ne refl refl in
      let (x, rest, behind) = Links-behind_not_last h n r ln ne_end in
      elim (Bool-cases (leb 0xFFFF sum)) [
        | inl large ↦
            keeps_next _ sum (way ∙ rw large refl)
              (λ exact. absurd (ground (arith, large, exact.1)))
        | inr small ↦ elim (Bool-cases (fits_offset to_next)) [
          | inl fits ↦ takes_next _ sum x rest behind (way ∙ rw (small, fits) refl) fits ne refl
          | inr far ↦ keeps_next _ sum (way ∙ rw (small, far) refl) (λ exact. absurd (elim exact.0 [
            | inl used ↦ false≢true (sym used ∙ free)
            | inr fit ↦ false≢true (sym far ∙ fit)
          ]))
        ]
      ]

  pub free_marker-FreedList :
      (is_free (h.size n) ≡ false) ⊎ (n ≢ h.fsll_end) → FreedList h (free_marker h m) m n front r
  unfolding Links
  free_marker-FreedList join =
      let (mm, l) = Markers-at h m front (n ∷ r) ok.markers in
      let (_, nx, mn, ln) = l in
      let ne : n ≢ m = Links-ne h n m r (n ∷ r) ln l (omega arith) in
      let d : (h.offset m == 0) ≡ false =
        ==_ne (h.offset m) 0 (λ e. ne (sym nx ∙ next_nowhere h m e mm.2)) in
      elim (Bool-cases (is_free (h.size n))) [
        | inr used ↦ keeps_next _ _ (free_marker_kept h m n d nx used ne) (λ exact. refl)
        | inl free ↦
            free_next mn ln nx ne d free
              (elim join [ inl used ↦ absurd (false≢true (sym used ∙ free)) | inr ne_end ↦ ne_end ])
      ]
