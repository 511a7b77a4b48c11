-- ===== src/Heap/Append/Place.antt =====
-- The word that `add_new_allocated_marker` of src/heap.c finds for a marker.
use skibios.Prelude.{
  ℕ, zero, suc, ◌%◌, ◌<◌, ◌≡◌, inl, inr, subst, ap, true, false, Bool-cases, some, arith, sub32,
}
use skibios.Prelude.{some-injective}
use skibios.Heap.{Heap, distance, fits_offset, is_empty}
use skibios.Heap.Append.{find_place}

-- What `find_place` promises of the word it finds.
abbrev pub IsPlace : Heap → ℕ → Type 0
IsPlace h new =
    (is_empty h new ≡ true)
    × (fits_offset (distance new h.fsll_end) ≡ true)
    × (new % 4 ≡ 0)
    × (new < 4294967296)

pub find_place-IsPlace :
    (rounds : ℕ) (h : Heap) (a new : ℕ)
    → a % 4 ≡ 0
    → a < 4294967296
    → find_place rounds h a ≡ some new
    → IsPlace h new
unfolding find_place
find_place-IsPlace zero h a new a4 a32 found = grind arith
find_place-IsPlace (suc rounds) h a new a4 a32 found =
    let far = find_place-IsPlace rounds h a new a4 a32 in
    let used = find_place-IsPlace rounds h (sub32 a 4) new (omega arith) (omega arith) in
    elim (Bool-cases (is_empty h a)) [
      | inl e ↦ elim (Bool-cases (fits_offset (distance a h.fsll_end))) [
        | inl fits ↦ place_here found e fits
        | inr far_off ↦ far (place_far found e far_off)
      ]
      | inr e ↦ used (place_used found e)
    ]
  where
    place_here :
        find_place (suc rounds) h a ≡ some new
        → is_empty h a ≡ true
        → fits_offset (distance a h.fsll_end) ≡ true
        → IsPlace h new
    place_here found e fits =
        let same : a ≡ new = some-injective (rw (e, fits) at found) in
        subst (λ x. IsPlace h x) same (e, fits, a4, a32)

    place_far :
        find_place (suc rounds) h a ≡ some new
        → is_empty h a ≡ true
        → fits_offset (distance a h.fsll_end) ≡ false
        → find_place rounds h a ≡ some new
    place_far found e far_off = rw (e, far_off) at found

    place_used :
        find_place (suc rounds) h a ≡ some new
        → is_empty h a ≡ false
        → find_place rounds h (sub32 a 4) ≡ some new
    place_used found e = rw e at found

pub distance_self : (a : ℕ) → distance a a ≡ 0
distance_self a = ground arith

pub place_first :
    (rounds : ℕ) (h : Heap) (a new : ℕ)
    → is_empty h a ≡ true
    → a ≡ h.fsll_end
    → find_place rounds h a ≡ some new
    → a ≡ new
unfolding find_place
place_first zero h a new e at_end found = ground (arith, found)
place_first (suc rounds) h a new e at_end found = some-injective (rw (e, fits) at found)
  where
    fits : fits_offset (distance a h.fsll_end) ≡ true
    fits = rw (← at_end) (ap (λ (x : ℕ). fits_offset x) (distance_self a))
