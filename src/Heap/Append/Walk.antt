-- ===== src/Heap/Append/Walk.antt =====
-- The walk of `add_new_allocated_marker` of src/heap.c to the new marker.
use skibios.Prelude.{
  ℕ, zero, suc, ◌+◌, ◌≤◌, ◌≡◌, ◌≢◌, refl, sym, subst, ap, ◌∙◌, some, List, [], ◌∷◌, ◌++◌, length,
  arith, u32,
}
use skibios.Prelude.{==_ne, ==_self}
use skibios.Heap.{Heap, clear_mask, next_marker}
use skibios.Heap.Chain.{IsMarker, Links, total}
use skibios.Heap.Append.{block_address}

-- A heap that keeps the markers of another one, but for where its last one leads.
abbrev pub Keeps : Heap → Heap → ℕ → Type 0
Keeps h h' new =
    (m : ℕ)
    → IsMarker h m
    → (m ≢ new)
      × IsMarker h' m
      × (m ≢ h.fsll_end → next_marker h' m ≡ next_marker h m)
      × (clear_mask (h'.size m) ≡ clear_mask (h.size m))

pub Links-grown :
    (h h' : Heap) (new a : ℕ) (rest : List ℕ)
    → Keeps h h' new
    → next_marker h' h.fsll_end ≡ new
    → IsMarker h' new
    → h'.fsll_end ≡ new
    → Links h a rest
    → IsMarker h a
    → Links h' a (rest ++ (new ∷ []))
unfolding Links
Links-grown h h' new a [] keeps nx m' end l m =
    let (ne, ma, _, _) = keeps a m in
    (λ p. ne (p ∙ end), subst (λ x. next_marker h' x ≡ new) (sym l) nx, m', sym end)
Links-grown h h' new a (b ∷ rest) keeps nx m' end (ne, nb, mb, l) m =
    let (na, ma, same, _) = keeps a m in
    let (_, mb', _, _) = keeps b mb in
    (λ p. na (p ∙ end), same ne ∙ nb, mb', Links-grown h h' new b rest keeps nx m' end l mb)

pub block_address-total :
    (h h' : Heap) (new a : ℕ) (rest : List ℕ) (fuel at : ℕ)
    → Keeps h h' new
    → next_marker h' h.fsll_end ≡ new
    → Links h a rest
    → IsMarker h a
    → suc (suc (length rest)) ≤ fuel
    → block_address fuel h' new a at ≡ some (u32 (at + total h (a ∷ rest)))
unfolding Links block_address total
block_address-total h h' new a rest zero at keeps nx l m enough = ground (arith, enough)
block_address-total h h' new a [] (suc zero) at keeps nx l m enough = ground (arith, enough)
block_address-total h h' new a [] (suc (suc fuel)) at keeps nx l m enough =
    let (na, ma, same, sz) = keeps a m in
    rw (==_ne new a (λ p. na (sym p)), ap (λ (x : ℕ). next_marker h' x) l ∙ nx, ==_self new, sz)
      (ap some (omega arith))
block_address-total h h' new a (b ∷ rest) (suc fuel) at keeps nx (ne, nb, mb, l) m enough =
    let (na, ma, same, sz) = keeps a m in
    let ih =
      block_address-total h h' new b rest fuel (u32 (at + clear_mask (h.size a))) keeps nx l mb
        (omega (arith, enough)) in
    rw (==_ne new a (λ p. na (sym p)), same ne ∙ nb, sz) (ih ∙ ap some (omega arith))

pub block_first :
    (n : ℕ) (h : Heap) (new a at : ℕ) → a ≡ new → block_address (n + 1) h new a at ≡ some at
unfolding block_address
block_first n h new a at e =
    let one : n + 1 ≡ suc n = omega arith in rw (one, e) (rw (==_self new) refl)
