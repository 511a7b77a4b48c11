-- ===== src/Heap/Chain/Change.antt =====
-- What becomes of the list of markers of src/heap.c when the heap changes at one of them.
use skibios.Prelude.{
  ℕ, ◌<◌, ◌≡◌, ◌≢◌, ◌≤◌, ◌⊎◌, inl, inr, refl, sym, subst, ap, ◌∙◌, true, false, List, [], ◌∷◌, ◌++◌,
  length, length-append, arith,
}
use mathlib.Core.Bool.{false≢true}
use skibios.Heap.{Heap, next_marker, is_empty}
use skibios.Heap.Chain.{IsMarker, Links, Markers, IsHeap}

-- Where a marker is, by the number of the markers behind it.
abbrev pub Outside : ℕ → ℕ → List ℕ → Type 0
Outside lo hi r = (length r < lo) ⊎ (hi < length r)

pub Outside-ne : (n : ℕ) (r : List ℕ) → Outside n n r → length r ≢ n
Outside-ne n r (inl less) = omega (arith, less)
Outside-ne n r (inr more) = omega (arith, more)

-- A heap keeps a marker of another one.
abbrev pub KeepsAt : Heap → Heap → ℕ → Type 0
KeepsAt h h' x =
    IsMarker h' x
    × (next_marker h' x ≡ next_marker h x)
    × (x ≡ h.fsll_end → x ≡ h'.fsll_end)
    × (x ≡ h'.fsll_end → x ≡ h.fsll_end)

-- A heap keeps the markers of another one, but for those between two places.
abbrev pub KeepsOut : ℕ → ℕ → Heap → Heap → Type 0
KeepsOut lo hi h h' =
    (x : ℕ) (r : List ℕ) → IsMarker h x → Links h x r → Outside lo hi r → KeepsAt h h' x

pub Links-unique : (h : Heap) (a : ℕ) (r r' : List ℕ) → Links h a r → Links h a r' → r ≡ r'
unfolding Links
Links-unique h a [] [] l l' = refl
Links-unique h a [] (b ∷ r') l (ne, _, _, _) = absurd (ne l)
Links-unique h a (b ∷ r) [] (ne, _, _, _) l' = absurd (ne l')
Links-unique h a (b ∷ r) (b' ∷ r') (_, e, _, l) (_, e', _, l') =
    let same : b ≡ b' = sym e ∙ e' in
    let ih = Links-unique h b r r' l (subst (λ x. Links h x r') (sym same) l') in cc

-- Two markers with different numbers of markers behind them are different.
pub Links-ne :
    (h : Heap) (a b : ℕ) (r r' : List ℕ) → Links h a r → Links h b r' → length r ≢ length r' → a ≢ b
Links-ne h a b r r' l l' ne p =
    ne (
      ap (λ (x : List ℕ). length x)
        (Links-unique h a r r' l (subst (λ x. Links h x r') (sym p) l')))

-- What is behind the places is kept.
pub Links-behind :
    (h h' : Heap) (lo hi b : ℕ) (rest : List ℕ)
    → KeepsOut lo hi h h'
    → Links h b rest
    → length rest < lo
    → IsMarker h b
    → Links h' b rest
unfolding Links
Links-behind h h' lo hi b [] keeps l less mb = (keeps b [] mb l (inl less)).2 l
Links-behind h h' lo hi b (x ∷ rest) keeps l less mb =
    let (ne, nx, mx, lx) = l in
    let (_, step, _, back) = keeps b (x ∷ rest) mb l (inl less) in
    let less' : length rest < lo = omega (arith, less) in
    (
      (λ p. ne (back p)),
      step ∙ nx,
      (keeps x rest mx lx (inl less')).0,
      Links-behind h h' lo hi x rest keeps lx less' mx,
    )

pub Links-from :
    (h : Heap) (a m : ℕ) (front r : List ℕ) → Links h a (front ++ (m ∷ r)) → Links h m r
unfolding Links
Links-from h a m [] r (_, _, _, l) = l
Links-from h a m (b ∷ front) r (_, _, _, l) = Links-from h b m front r l

keeps_marker :
    (h h' : Heap) (lo hi a m : ℕ) (front r : List ℕ)
    → KeepsOut lo hi h h'
    → hi ≤ length r
    → Links h a (front ++ (m ∷ r))
    → IsMarker h a
    → KeepsAt h h' a
keeps_marker h h' lo hi a m front r keeps high l ma =
    keeps a (front ++ (m ∷ r)) ma l (inr (omega (arith, high, length-append {0} front (m ∷ r))))

-- A new list behind a marker stays behind what was before it.
pub Links-replace :
    (h h' : Heap) (lo hi a m : ℕ) (front r r' : List ℕ)
    → KeepsOut lo hi h h'
    → hi ≤ length r
    → IsMarker h' m
    → Links h' m r'
    → Links h a (front ++ (m ∷ r))
    → IsMarker h a
    → Links h' a (front ++ (m ∷ r'))
unfolding Links
Links-replace h h' lo hi a m [] r r' keeps high mm new l ma =
    let (ne, nx, mx, behind) = l in
    let (_, step, _, back) = keeps a (m ∷ r) ma l (inr (omega (arith, high))) in
    ((λ p. ne (back p)), step ∙ nx, mm, new)
Links-replace h h' lo hi a m (b ∷ front) r r' keeps high mm new l ma =
    let (ne, nx, mb, behind) = l in
    let longer = length-append {0} front (m ∷ r) in
    let (_, step, _, back) =
      keeps a (b ∷ (front ++ (m ∷ r))) ma l (inr (omega (arith, longer, high))) in
    let (mb', _, _, _) = keeps_marker h h' lo hi b m front r keeps high behind mb in
    (
      (λ p. ne (back p)),
      step ∙ nx,
      mb',
      Links-replace h h' lo hi b m front r r' keeps high mm new behind mb,
    )

pub Markers-replace :
    (h h' : Heap) (lo hi m : ℕ) (front r r' : List ℕ)
    → KeepsOut lo hi h h'
    → hi ≤ length r
    → h'.fsll_start ≡ h.fsll_start
    → IsMarker h' m
    → Links h' m r'
    → Markers h (front ++ (m ∷ r))
    → Markers h' (front ++ (m ∷ r'))
unfolding Markers
Markers-replace h h' lo hi m [] r r' keeps high start mm new (at_m, _, _) = (start ∙ at_m, mm, new)
Markers-replace h h' lo hi m (a ∷ front) r r' keeps high start mm new (at_a, ma, l) = (
  start ∙ at_a,
  (keeps_marker h h' lo hi a m front r keeps high l ma).0,
  Links-replace h h' lo hi a m front r r' keeps high mm new l ma,
)

-- A heap that keeps every marker.
abbrev pub Keeps : Heap → Heap → Type 0
Keeps h h' =
    (h'.fsll_end ≡ h.fsll_end)
    × ((x : ℕ) → IsMarker h x → IsMarker h' x × (next_marker h' x ≡ next_marker h x))

Links-kept :
    (h h' : Heap) (a : ℕ) (rest : List ℕ)
    → Keeps h h'
    → Links h a rest
    → IsMarker h a
    → Links h' a rest
unfolding Links
Links-kept h h' a [] (end, keeps) l ma = l ∙ sym end
Links-kept h h' a (b ∷ rest) (end, keeps) (ne, nx, mb, l) ma = (
  (λ p. ne (p ∙ end)),
  (keeps a ma).1 ∙ nx,
  (keeps b mb).0,
  Links-kept h h' b rest (end, keeps) l mb,
)

pub Markers-kept :
    (h h' : Heap) (m : ℕ) (front r : List ℕ)
    → Keeps h h'
    → h'.fsll_start ≡ h.fsll_start
    → Markers h (front ++ (m ∷ r))
    → Markers h' (front ++ (m ∷ r))
unfolding Markers
Markers-kept h h' m [] r keeps start (at_m, mm, l) =
    (start ∙ at_m, (keeps.1 m mm).0, Links-kept h h' m r keeps l mm)
Markers-kept h h' m (a ∷ front) r keeps start (at_a, ma, l) =
    (start ∙ at_a, (keeps.1 a ma).0, Links-kept h h' a (front ++ (m ∷ r)) keeps l ma)

pub Links-end :
    (h : Heap) (a : ℕ) (rest : List ℕ) → Links h a rest → IsMarker h a → IsMarker h h.fsll_end
unfolding Links
Links-end h a [] l m = subst (λ x. IsMarker h x) l m
Links-end h a (b ∷ rest) (_, _, mb, l) m = Links-end h b rest l mb

Links-IsMarker :
    (h : Heap) (a m : ℕ) (front r : List ℕ) → Links h a (front ++ (m ∷ r)) → IsMarker h m
unfolding Links
Links-IsMarker h a m [] r (_, _, mm, _) = mm
Links-IsMarker h a m (b ∷ front) r (_, _, _, l) = Links-IsMarker h b m front r l

-- The marker of a list, and what is behind it.
pub Markers-at :
    (h : Heap) (m : ℕ) (front r : List ℕ)
    → Markers h (front ++ (m ∷ r))
    → IsMarker h m × Links h m r
unfolding Markers Links
Markers-at h m [] r (_, mm, l) = (mm, l)
Markers-at h m (a ∷ front) r (_, _, l) =
    (Links-IsMarker h a m front r l, Links-from h a m front r l)

pub not_empty : (h : Heap) (m new : ℕ) → is_empty h m ≡ false → is_empty h new ≡ true → m ≢ new
not_empty h m new used empty p = false≢true (sym used ∙ ap (λ (x : ℕ). is_empty h x) p ∙ empty)

-- The bytes that remain are no matter of the markers.
pub remaining_lem :
    (h : Heap) (n m : ℕ) (front r : List ℕ)
    → IsHeap h (front ++ (m ∷ r))
    → IsHeap (record h { heap_remaining = n }) (front ++ (m ∷ r))
remaining_lem h n m front r ok = record {
  markers =
      Markers-kept h (record h { heap_remaining = n }) m front r (refl, (λ x mx. (mx, refl))) refl
        ok.markers;
  at_bstart = ok.at_bstart;
  aligned = ok.aligned;
  in_range = ok.in_range;
  hstart_in_range = ok.hstart_in_range;
  ended = ok.ended;
  counted = ok.counted;
}
