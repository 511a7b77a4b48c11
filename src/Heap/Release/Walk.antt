-- ===== src/Heap/Release/Walk.antt =====
-- The two walks of `release_allocated_marker` of src/heap.c: to the marker of a block, and to the one before it.
use skibios.Prelude.{
  ℕ, zero, suc, ◌+◌, ◌<◌, ◌≤◌, ◌≡◌, ◌≢◌, refl, sym, ◌∙◌, ==_ne, ==_self, some, List, [], ◌∷◌, ◌++◌,
  length, length-append, arith,
}
use skibios.Heap.{Heap, clear_mask, next_marker}
use skibios.Heap.Chain.{Links, Markers, IsHeap, total}
use skibios.Heap.Chain.Change.{Links-ne, Links-from}
use skibios.Heap.Release.{find_block, find_before}

-- The block of each of the markers has a byte.
unfoldable pub Sized : Heap → List ℕ → Type 0
Sized h [] = Unit
Sized h (a ∷ rest) = (0 < clear_mask (h.size a)) × Sized h rest

find_block_here :
    (rounds : ℕ) (h : Heap) (wanted a address : ℕ)
    → address ≡ wanted
    → find_block (suc rounds) h wanted a address ≡ some a
unfolding find_block
find_block_here rounds h wanted a address e = rw (e, ==_self wanted) refl

find_block-Links :
    (rounds : ℕ) (h : Heap) (wanted a m address : ℕ) (front r : List ℕ)
    → Links h a (front ++ (m ∷ r))
    → Sized h (a ∷ front)
    → wanted ≡ address + total h (a ∷ front)
    → wanted < 4294967296
    → suc (length front) < rounds
    → find_block rounds h wanted a address ≡ some m
unfolding Links Sized total find_block
find_block-Links zero h wanted a m address front r l sized at below enough =
    absurd (omega (arith, enough))
find_block-Links (suc zero) h wanted a m address [] r l sized at below enough =
    absurd (omega (arith, enough))
find_block-Links (suc (suc rounds)) h wanted a m address [] r (_, nx, _, _) (pos, _) at below
      enough =
    rw (==_ne address wanted (omega (arith, pos, at)), nx)
      (find_block_here rounds h wanted m _ (omega (arith, at, below)))
find_block-Links (suc rounds) h wanted a m address (b ∷ front) r (_, nx, _, l) (pos, sized) at below
      enough =
    rw (==_ne address wanted (omega (arith, pos, at)), nx)
      (find_block-Links rounds h wanted b m _ front r l sized (omega (arith, at, below)) below
        (omega (arith, enough)))

pub find_block-IsHeap :
    (h : Heap) (m : ℕ) (front r : List ℕ)
    → IsHeap h (front ++ (m ∷ r))
    → Sized h front
    → h.hstart_addr + total h front < 4294967296
    → find_block h.blist_size h (h.hstart_addr + total h front) h.fsll_start h.hstart_addr ≡ some m
unfolding Markers total
find_block-IsHeap h m [] r ok sized below =
    let (start, _, _) = ok.markers in
    (λ i. find_block (ok.counted i) h (h.hstart_addr + 0) (start i) h.hstart_addr)
    ∙ find_block_here (length r) h _ m h.hstart_addr (omega arith)
find_block-IsHeap h m (a ∷ front) r ok sized below =
    let (start, _, l) = ok.markers in
    let longer = length-append {0} front (m ∷ r) in
    (λ i. find_block (ok.counted i) h (h.hstart_addr + total h (a ∷ front)) (start i) h.hstart_addr)
    ∙ find_block-Links _ h _ a m h.hstart_addr front r l sized refl below (omega (arith, longer))

-- The heap may have changed at the marker that is looked for.
find_before-Links :
    (fuel : ℕ) (h h' : Heap) (a p m : ℕ) (front r : List ℕ)
    → ((x : ℕ) → x ≢ m → next_marker h' x ≡ next_marker h x)
    → Links h a (front ++ (p ∷ m ∷ r))
    → suc (suc (length front)) ≤ fuel
    → find_before fuel h' m a ≡ some p
unfolding Links find_before
find_before-Links zero h h' a p m front r same l enough = absurd (omega (arith, enough))
find_before-Links (suc zero) h h' a p m front r same l enough = absurd (omega (arith, enough))
find_before-Links (suc (suc fuel)) h h' a p m [] r same l enough =
    let (ne, nx, mp, lp) = l in
    let (ne', nx', mm, lm) = lp in
    let a_ne : a ≢ m = Links-ne h a m (p ∷ m ∷ r) r l lm (omega arith) in
    let p_ne : p ≢ m = Links-ne h p m (m ∷ r) r lp lm (omega arith) in
    let from_a : next_marker h' a ≡ p = same a a_ne ∙ nx in
    let from_p : next_marker h' p ≡ m = same p p_ne ∙ nx' in
    rw (from_a, ==_ne p m p_ne, from_p, ==_self m) refl
find_before-Links (suc fuel) h h' a p m (b ∷ front) r same l enough =
    let (ne, nx, mb, lb) = l in
    let (_, _, _, lm) = Links-from h b p front (m ∷ r) lb in
    let longer = length-append {0} front (p ∷ m ∷ r) in
    let a_ne : a ≢ m = Links-ne h a m (b ∷ (front ++ (p ∷ m ∷ r))) r l lm (omega (arith, longer)) in
    let b_ne : b ≢ m = Links-ne h b m (front ++ (p ∷ m ∷ r)) r lb lm (omega (arith, longer)) in
    let from_a : next_marker h' a ≡ b = same a a_ne ∙ nx in
    rw (from_a, ==_ne b m b_ne)
      (find_before-Links fuel h h' b p m front r same lb (omega (arith, enough)))

pub find_before-Markers :
    (h h' : Heap) (p m : ℕ) (front r : List ℕ)
    → ((x : ℕ) → x ≢ m → next_marker h' x ≡ next_marker h x)
    → Markers h (front ++ (p ∷ m ∷ r))
    → h'.fsll_start ≡ h.fsll_start
    → (fuel : ℕ) → length (front ++ (p ∷ m ∷ r)) ≤ fuel
    → find_before fuel h' m h'.fsll_start ≡ some p
unfolding Markers Links find_before
find_before-Markers h h' p m [] r same (at_p, mp, l) start zero enough =
    absurd (omega (arith, enough))
find_before-Markers h h' p m [] r same (at_p, mp, l) start (suc fuel) enough =
    let (_, nx, _, lm) = l in
    let p_ne : p ≢ m = Links-ne h p m (m ∷ r) r l lm (omega arith) in
    (λ i. find_before (suc fuel) h' m ((start ∙ at_p) i)) ∙ rw (same p p_ne ∙ nx, ==_self m) refl
find_before-Markers h h' p m (a ∷ front) r same (at_a, ma, l) start fuel enough =
    (λ i. find_before fuel h' m ((start ∙ at_a) i))
    ∙ find_before-Links fuel h h' a p m front r same l
        (omega (arith, enough, length-append {0} front (p ∷ m ∷ r)))

pub Markers-start_ne :
    (h : Heap) (p m : ℕ) (front r : List ℕ) → Markers h (front ++ (p ∷ m ∷ r)) → h.fsll_start ≢ m
unfolding Markers Links
Markers-start_ne h p m [] r (at_p, mp, l) e =
    Links-ne h p m (m ∷ r) r l l.3 (omega arith) (sym at_p ∙ e)
Markers-start_ne h p m (a ∷ front) r (at_a, ma, l) e =
    let (_, _, _, lm) = Links-from h a p front (m ∷ r) l in
    Links-ne h a m (front ++ (p ∷ m ∷ r)) r l lm
      (omega (arith, length-append {0} front (p ∷ m ∷ r))) (sym at_a ∙ e)
