-- ===== src/Heap/Release/Absorb.antt =====
-- How `release_allocated_marker` of src/heap.c takes a marker out of the list: the one before it gets the sizes of
-- both, and leads to the one behind it.
use skibios.Prelude.{
  ℕ, suc, ◌+◌, ◌<◌, ◌≡◌, ◌≢◌, inl, inr, refl, sym, ◌∙◌, Bool, true, false, ==_ne, ==_self, ◌&&◌,
  List, ◌∷◌, ◌++◌, length, length-append, ◌==◌, arith, u32, u16, sub32, update,
}
use skibios.Heap.{Heap, sext16, next_marker, distance, fits_offset}
use skibios.Heap.Chain.{IsMarker, Links, IsHeap}
use skibios.Heap.Chain.Change.{
  Outside, KeepsOut, Links-ne, Links-behind, Markers-at, Markers-replace,
}
use skibios.Heap.Chain.{total}
use skibios.Heap.Chain.Bytes.{BytesOut, Markers-total, total_behind}
use skibios.Heap.{clear_mask}
use skibios.Heap.Search.Split.{step_via}

second_false : (a : Bool) {b : Bool} → b ≡ false → (a && b) ≡ false
second_false true e = e
second_false false e = refl

module _ (h : Heap) (p m x : ℕ) (front rest : List ℕ) (ok : IsHeap h (front ++ (p ∷ m ∷ x ∷ rest)))
    (v : ℕ) where
  abbrev pub absorbed : Heap
  absorbed = record h {
    blist_size = sub32 h.blist_size 1;
    size = update (update h.size p v) m 0;
    offset = update (update h.offset p (u16 (u32 (distance m p + sext16 (h.offset m))))) m 0;
  }

  at_p : IsMarker h p × Links h p (m ∷ x ∷ rest)
  at_p = Markers-at h p front (m ∷ x ∷ rest) ok.markers

  at_m : Links h m (x ∷ rest)
  unfolding Links
  at_m = at_p.1.3

  apart :
      (y : ℕ) (r : List ℕ)
      → Links h y r
      → Outside (suc (length rest)) (suc (suc (length rest))) r
      → (y ≢ p) × (y ≢ m)
  apart y r l (inl less) = (
    Links-ne h y p r (m ∷ x ∷ rest) l at_p.1 (omega (arith, less)),
    Links-ne h y m r (x ∷ rest) l at_m (omega (arith, less)),
  )
  apart y r l (inr over) = (
    Links-ne h y p r (m ∷ x ∷ rest) l at_p.1 (omega (arith, over)),
    Links-ne h y m r (x ∷ rest) l at_m (omega (arith, over)),
  )

  absorbed-BytesOut : BytesOut (suc (length rest)) (suc (suc (length rest))) h absorbed
  absorbed-BytesOut y r my l out =
      let (ne_p, ne_m) = apart y r l out in rw (==_ne y m ne_m, ==_ne y p ne_p) refl

  absorbed-KeepsOut : KeepsOut (suc (length rest)) (suc (suc (length rest))) h absorbed
  absorbed-KeepsOut y r (used, y4, y32) l out =
      let (ne_p, ne_m) = apart y r l out in
      (
        (rw (==_ne y m ne_m, ==_ne y p ne_p) used, y4, y32),
        rw (==_ne y m ne_m, ==_ne y p ne_p) refl,
        (λ e. e),
        (λ e. e),
      )

  -- Where the size holds the bytes of both, none is lost.
  pub absorbed-total :
      clear_mask v ≡ clear_mask (h.size p) + clear_mask (h.size m)
      → total absorbed (front ++ (p ∷ x ∷ rest)) ≡ total h (front ++ (p ∷ m ∷ x ∷ rest))
  unfolding Links total
  absorbed-total both =
      let (_, l) = at_p in
      let (_, _, mx, behind) = at_m in
      let p_ne : p ≢ m = Links-ne h p m (m ∷ x ∷ rest) (x ∷ rest) l at_m (omega arith) in
      let at_v : clear_mask (absorbed.size p) ≡ clear_mask v =
        rw (==_ne p m p_ne, ==_self p) refl in
      Markers-total h absorbed _ _ absorbed-BytesOut p front (m ∷ x ∷ rest) (x ∷ rest) (omega arith)
        (omega (
          arith,
          at_v,
          both,
          total_behind h absorbed _ _ absorbed-BytesOut x rest behind (omega arith) mx,
        ))
        ok.markers

  module _ (room : h.blist_size < 4294967296)
      (fits : fits_offset (u32 (distance m p + sext16 (h.offset m))) ≡ true) where
    p_next : next_marker absorbed p ≡ x
    unfolding Links
    p_next =
        let ((_, p4, p32), l) = at_p in
        let (_, m4, m32) = l.2 in
        let (_, nx, _, _) = at_m in
        let p_ne : p ≢ m = Links-ne h p m (m ∷ x ∷ rest) (x ∷ rest) l at_m (omega arith) in
        rw (==_ne p m p_ne, ==_self p) (step_via m p (sext16 (h.offset m)) m4 p4 m32 p32 fits) ∙ nx

    absorbed-IsMarker : IsMarker absorbed p
    unfolding Links
    absorbed-IsMarker =
        let ((_, p4, p32), l) = at_p in
        let p_ne : p ≢ m = Links-ne h p m (m ∷ x ∷ rest) (x ∷ rest) l at_m (omega arith) in
        let p_ne_x : p ≢ x = Links-ne h p x (m ∷ x ∷ rest) rest l at_m.3 (omega arith) in
        let leads : absorbed.offset p ≢ 0 =
          λ e. p_ne_x (sym (rw e (omega (arith, p32))) ∙ p_next) in
        (second_false (absorbed.size p == 0) (==_ne (absorbed.offset p) 0 leads), p4, p32)

    absorbed-Links : Links absorbed p (x ∷ rest)
    unfolding Links
    absorbed-Links =
        let (ne, _, _, _) = at_p.1 in
        let (_, nx, mx, behind) = at_m in
        (
          ne,
          p_next,
          (absorbed-KeepsOut x rest mx behind (inl (omega arith))).0,
          Links-behind h absorbed _ _ x rest absorbed-KeepsOut behind (omega arith) mx,
        )

    pub absorbed-IsHeap : IsHeap absorbed (front ++ (p ∷ x ∷ rest))
    unfolding Links
    absorbed-IsHeap = record {
      markers =
          Markers-replace h absorbed _ _ p front (m ∷ x ∷ rest) (x ∷ rest) absorbed-KeepsOut
            (omega arith) refl absorbed-IsMarker absorbed-Links ok.markers;
      at_bstart = ok.at_bstart;
      aligned = ok.aligned;
      in_range = ok.in_range;
      hstart_in_range = ok.hstart_in_range;
      ended =
          rw (==_ne h.fsll_end m (λ e. at_m.0 (sym e)), ==_ne h.fsll_end p (λ e. at_p.1.0 (sym e)))
            ok.ended;
      counted = omega (
        arith,
        room,
        ok.counted,
        length-append {0} front (p ∷ m ∷ x ∷ rest),
        length-append {0} front (p ∷ x ∷ rest),
      );
    }
