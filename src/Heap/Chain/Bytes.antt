-- ===== src/Heap/Chain/Bytes.antt =====
-- The bytes of the blocks of src/heap.c when the heap changes at one place of the list of markers.
use skibios.Prelude.{
  ℕ, ◌<◌, ◌≤◌, ◌≡◌, inl, inr, refl, List, [], ◌∷◌, ◌++◌, length, length-append, arith,
}
use skibios.Heap.{Heap, clear_mask}
use skibios.Heap.Chain.{IsMarker, Links, Markers, total}
use skibios.Heap.Chain.Change.{Outside}

-- The blocks of the markers keep their sizes, but for those between two places.
abbrev pub BytesOut : ℕ → ℕ → Heap → Heap → Type 0
BytesOut lo hi h h' =
    (x : ℕ) (r : List ℕ)
    → IsMarker h x
    → Links h x r
    → Outside lo hi r
    → clear_mask (h'.size x) ≡ clear_mask (h.size x)

pub total_ext :
    (h h' : Heap) (ms : List ℕ)
    → ((x : ℕ) → clear_mask (h'.size x) ≡ clear_mask (h.size x))
    → total h' ms ≡ total h ms
unfolding total
total_ext h h' [] same = refl
total_ext h h' (a ∷ ms) same = omega (arith, same a, total_ext h h' ms same)

module _ (h h' : Heap) (lo hi : ℕ) (same : BytesOut lo hi h h') where
  pub total_behind :
      (b : ℕ) (rest : List ℕ)
      → Links h b rest
      → length rest < lo
      → IsMarker h b
      → total h' (b ∷ rest) ≡ total h (b ∷ rest)
  unfolding Links total
  total_behind b [] l less mb = omega (arith, same b [] mb l (inl less))
  total_behind b (x ∷ rest) l less mb =
      let (_, _, mx, lx) = l in
      let ih = total_behind x rest lx (omega (arith, less)) mx in
      omega (arith, same b (x ∷ rest) mb l (inl less), ih)

  Links-total :
      (a m : ℕ) (front r r' : List ℕ)
      → hi ≤ length r
      → total h' (m ∷ r') ≡ total h (m ∷ r)
      → Links h a (front ++ (m ∷ r))
      → IsMarker h a
      → total h' (a ∷ (front ++ (m ∷ r'))) ≡ total h (a ∷ (front ++ (m ∷ r)))
  unfolding Links total
  Links-total a m [] r r' high eq l ma =
      omega (arith, same a (m ∷ r) ma l (inr (omega (arith, high))), eq)
  Links-total a m (b ∷ front) r r' high eq l ma =
      let (_, _, mb, lb) = l in
      let ih = Links-total b m front r r' high eq lb mb in
      let at_a =
        same a (b ∷ (front ++ (m ∷ r))) ma l
          (inr (omega (arith, high, length-append {0} front (m ∷ r)))) in
      omega (arith, at_a, ih)

  pub Markers-total :
      (m : ℕ) (front r r' : List ℕ)
      → hi ≤ length r
      → total h' (m ∷ r') ≡ total h (m ∷ r)
      → Markers h (front ++ (m ∷ r))
      → total h' (front ++ (m ∷ r')) ≡ total h (front ++ (m ∷ r))
  unfolding Markers
  Markers-total m [] r r' high eq l = eq
  Markers-total m (a ∷ front) r r' high eq (_, ma, l) = Links-total a m front r r' high eq l ma
