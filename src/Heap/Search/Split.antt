-- ===== src/Heap/Search/Split.antt =====
-- The two ways in which `search_free_marker` of src/heap.c takes a marker: as it is, and split.
use skibios.Prelude.{
  ℕ, zero, suc, ◌+◌, ◌*◌, ◌%◌, ◌<◌, ◌≡◌, ◌≢◌, inl, inr, refl, sym, subst, ◌∙◌, true, false,
  Bool-cases, ==_ne, ==_self, ◌&&◌, some, List, ◌∷◌, ◌++◌, length, length-append, ◌==◌, arith, u32,
  u16, sub32, update,
}
use skibios.Prelude.{some-injective}
use skibios.Heap.{Heap, set_mask, sext16, next_marker, distance, fits_offset, is_empty}
use skibios.Heap.Chain.{IsMarker, Links, IsHeap, step_to}
use skibios.Heap.Chain.Change.{
  KeepsOut, Outside-ne, Links-ne, Links-behind, Links-end, Markers-kept, Markers-at,
  Markers-replace, not_empty,
}
use skibios.Heap.Search.{find_space}

pub find_space_lem :
    (n : ℕ) (h : Heap) (s : ℕ)
    → h.bstart_addr % 4 ≡ 0
    → find_space n h ≡ some s
    → (is_empty h s ≡ true) × (s % 4 ≡ 0) × (s < 4294967296)
unfolding find_space
find_space_lem zero h s b4 found = grind arith
find_space_lem (suc n) h s b4 found =
    let a = sub32 h.bstart_addr (suc n * 4) in
    let rest = find_space_lem n h s b4 in
    elim (Bool-cases (is_empty h a)) [
      | inl e ↦
          let same : a ≡ s = some-injective (rw e at found) in
          subst (λ x. (is_empty h x ≡ true) × (x % 4 ≡ 0) × (x < 4294967296)) same
            (e, omega (arith, b4), omega arith)
      | inr e ↦ rest (rw e at found)
    ]

step_fits :
    (a v : ℕ)
    → v < 4294967296
    → fits_offset v ≡ true
    → u32 (a + sext16 (u16 v) * 4) ≡ u32 (a + v * 4)
step_fits a v v32 fits = ground arith

distance_times :
    (a b : ℕ)
    → a % 4 ≡ 0
    → b % 4 ≡ 0
    → a < 4294967296
    → b < 4294967296
    → u32 (b + distance a b * 4) ≡ a
distance_times a b a4 b4 a32 b32 = ground arith

-- A step from the split marker with the offset it gets is the step from the old one.
pub step_via :
    (m s o : ℕ)
    → m % 4 ≡ 0
    → s % 4 ≡ 0
    → m < 4294967296
    → s < 4294967296
    → fits_offset (u32 (distance m s + o)) ≡ true
    → u32 (s + sext16 (u16 (u32 (distance m s + o))) * 4) ≡ u32 (m + o * 4)
step_via m s o m4 s4 m32 s32 fits =
    step_fits s (u32 (distance m s + o)) (omega arith) fits
    ∙ omega (arith, distance_times m s m4 s4 m32 s32)

-- Other numbers at the marker and, at every word, the offsets as they are.
pub kept_lem :
    (h : Heap) (m : ℕ) (front r : List ℕ) (size offset : ℕ → ℕ)
    → IsHeap h (front ++ (m ∷ r))
    → ((x : ℕ) → x ≢ m → size x ≡ h.size x)
    → ((x : ℕ) → offset x ≡ h.offset x)
    → 0 < size m
    → IsHeap (record h { size = size; offset = offset }) (front ++ (m ∷ r))
kept_lem h m front r size offset ok sizes offsets pos = record {
  markers =
      Markers-kept h (record h { size = size; offset = offset }) m front r (refl, keeps) refl
        ok.markers;
  at_bstart = ok.at_bstart;
  aligned = ok.aligned;
  in_range = ok.in_range;
  hstart_in_range = ok.hstart_in_range;
  ended = offsets h.fsll_end ∙ ok.ended;
  counted = ok.counted;
}
  where
    used_at : (x : ℕ) → is_empty h x ≡ false → ((size x == 0) && (offset x == 0)) ≡ false
    used_at x used = elim (Bool-cases (x == m)) [
      | inl e ↦
          let same : x ≡ m = ground (arith, e) in
          let p : 0 < size x = subst (λ y. 0 < size y) (sym same) pos in ground (arith, p)
      | inr e ↦ rw (sizes x (ground (arith, e)), offsets x) used
    ]

    keeps :
        (x : ℕ)
        → IsMarker h x
        → IsMarker (record h { size = size; offset = offset }) x
          × (next_marker (record h { size = size; offset = offset }) x ≡ next_marker h x)
    keeps x (used, x4, x32) = ((used_at x used, x4, x32), rw (offsets x) refl)

module _ (h : Heap) (m s : ℕ) (b : ℕ) (front post : List ℕ)
    (ok : IsHeap h (front ++ (m ∷ b ∷ post))) (empty : is_empty h s ≡ true) (s4 : s % 4 ≡ 0)
    (s32 : s < 4294967296) (size remaining : ℕ) (pos : 0 < size) (small : size < 32768)
    (fits_next : fits_offset (u32 (distance m s + sext16 (h.offset m))) ≡ true)
    (fits_split : fits_offset (distance s m) ≡ true) (room : h.blist_size < 4294967295) where
  abbrev pub split : Heap
  split = record h {
    blist_size = u32 (h.blist_size + 1);
    size = update (update h.size s (u16 (set_mask remaining))) m (u16 size);
    offset =
        update (update h.offset s (u16 (u32 (distance m s + sext16 (h.offset m))))) m
          (u16 (distance s m));
  }

  split-KeepsOut : KeepsOut (suc (length post)) (suc (length post)) h split
  split-KeepsOut x r (used, x4, x32) l out =
      let (_, at_m) = Markers-at h m front (b ∷ post) ok.markers in
      let ne : x ≢ m = Links-ne h x m r (b ∷ post) l at_m (Outside-ne _ r out) in
      let ne_s : x ≢ s = not_empty h x s used empty in
      (
        (rw (==_ne x m ne, ==_ne x s ne_s) used, x4, x32),
        rw (==_ne x m ne, ==_ne x s ne_s) refl,
        (λ p. p),
        (λ p. p),
      )

  split-Links : Links split m (s ∷ b ∷ post)
  unfolding Links
  split-Links =
      let (mm, l) = Markers-at h m front (b ∷ post) ok.markers in
      let (used, m4, m32) = mm in
      let (ne, nx, mb, behind) = l in
      let s_ne : s ≢ m = λ p. not_empty h m s used empty (sym p) in
      let end = Links-end h m (b ∷ post) l mm in
      (
        ne,
        rw (==_self m) (step_to s m s4 m4 s32 m32 fits_split),
        (rw (==_ne s m s_ne, ==_self s) (ground arith), s4, s32),
        (
          (λ p. not_empty h h.fsll_end s end.0 empty (sym p)),
          (rw (==_ne s m s_ne, ==_self s)
                (step_via m s (sext16 (h.offset m)) m4 s4 m32 s32 fits_next)
              ∙ nx),
          (split-KeepsOut b post mb behind (inl (omega arith))).0,
          Links-behind h split _ _ b post split-KeepsOut behind (omega arith) mb,
        ),
      )

  pub split-IsHeap : IsHeap split (front ++ (m ∷ s ∷ b ∷ post))
  unfolding Links
  split-IsHeap =
      let (mm, l) = Markers-at h m front (b ∷ post) ok.markers in
      let (used, m4, m32) = mm in
      let end = Links-end h m (b ∷ post) l mm in
      let end_ne_s : h.fsll_end ≢ s = not_empty h h.fsll_end s end.0 empty in
      let end_ne_m : h.fsll_end ≢ m = λ p. l.0 (sym p) in
      record {
        markers =
            Markers-replace h split _ _ m front (b ∷ post) (s ∷ b ∷ post) split-KeepsOut
              (omega arith) refl (rw (==_self m) (ground (arith, pos, small)), m4, m32) split-Links
              ok.markers;
        at_bstart = ok.at_bstart;
        aligned = ok.aligned;
        in_range = ok.in_range;
        hstart_in_range = ok.hstart_in_range;
        ended = rw (==_ne h.fsll_end m end_ne_m, ==_ne h.fsll_end s end_ne_s) ok.ended;
        counted = omega (
          arith,
          ok.counted,
          room,
          length-append {0} front (m ∷ b ∷ post),
          length-append {0} front (m ∷ s ∷ b ∷ post),
        );
      }
