-- ===== src/Heap/Release/Inner.antt =====
-- What `release_allocated_marker` of src/heap.c does with a block that is not the last one.
use skibios.Prelude.{
  ℕ, ◌+◌, ◌<◌, ◌≤◌, ◌≡◌, ◌≢◌, ◌⊎◌, inl, inr, refl, sym, ap, subst, ◌∙◌, true, false, ==_ne, ==_self,
  List, [], ◌∷◌, ◌++◌, length, length-append, some, ◌==◌, arith, u32,
}
use mathlib.Core.List.{append_assoc}
use skibios.Heap.{Heap, is_free, clear_mask}
use skibios.Heap.Chain.{Links, Markers, IsHeap, total}
use skibios.Heap.Chain.Change.{Links-ne, Markers-at}
use skibios.Heap.Release.{
  find_block, find_before, free_marker, join_before, finish, release_allocated_marker,
}
use skibios.Heap.Release.Walk.{Sized, find_block-IsHeap, find_before-Markers, Markers-start_ne}
use skibios.Heap.Release.Ways.{Exact, SameBytes, done}
use skibios.Heap.Release.Free.{free_marker-FreedList}
use skibios.Heap.Release.Join.{Joins, join_before-JoinedList}

pub release_first :
    (h : Heap) (m address : ℕ)
    → find_block h.blist_size h address h.fsll_start h.hstart_addr ≡ some m
    → (free_marker h m).heap.fsll_start ≡ m
    → release_allocated_marker h address ≡ some (finish (free_marker h m))
unfolding release_allocated_marker
release_first h m address found first =
    let at_start : ((free_marker h m).heap.fsll_start == m) ≡ true =
      ap (λ (x : ℕ). x == m) first ∙ ==_self m in
    rw (found, release_allocated_marker) (rw at_start refl)

pub release_behind :
    (h : Heap) (m p address : ℕ)
    → find_block h.blist_size h address h.fsll_start h.hstart_addr ≡ some m
    → (free_marker h m).heap.fsll_start ≢ m
    → find_before (h.blist_size + 1) (free_marker h m).heap m (free_marker h m).heap.fsll_start
      ≡ some p
    → release_allocated_marker h address ≡ some (finish (join_before (free_marker h m) m p))
unfolding release_allocated_marker
release_behind h m p address found ne before =
    let off_start = ==_ne (free_marker h m).heap.fsll_start m ne in
    rw (found, release_allocated_marker) (rw (off_start, before) refl)

-- The markers that are left when the block of the given one is released: it may take in the one behind it, and may be
-- taken in by the one before it.
abbrev pub Left : List ℕ → ℕ → ℕ → List ℕ → List ℕ → Type 0
Left front m n r ms =
    ((ms ≡ front ++ (m ∷ n ∷ r)) ⊎ (ms ≡ front ++ (m ∷ r)))
    ⊎ ((ms ≡ front ++ (n ∷ r)) ⊎ (ms ≡ front ++ r))

-- The sizes of any three blocks fit a marker together.
abbrev pub Small : Heap → Type 0
Small h = (y : ℕ) → clear_mask (h.size y) < 10923

abbrev pub Released : Heap → ℕ → ℕ → ℕ → List ℕ → List ℕ → Type 0
Released h address m n front r =
    (h' : Heap) × (ms : List ℕ) × (release_allocated_marker h address ≡ some (h', h'.blist_size))
    × IsHeap h' ms
    × (h'.heap_remaining ≡ u32 (h.heap_remaining + clear_mask (h.size m)))
    × Left front m n r ms
    × (Exact h m n → Small h → total h' ms ≡ total h (front ++ (m ∷ n ∷ r)))

pub Markers-start : (h : Heap) (a : ℕ) (ms : List ℕ) → Markers h (a ∷ ms) → h.fsll_start ≡ a
unfolding Markers
Markers-start h a ms (start, _, _) = start

pub list_cases : (l : List ℕ) → (l ≡ []) ⊎ ((front : List ℕ) × (p : ℕ) × (l ≡ front ++ (p ∷ [])))
list_cases [] = inl refl
list_cases (a ∷ l) = elim (list_cases l) [
  | inl e ↦ inr ([], a, ap (λ (x : List ℕ). a ∷ x) e)
  | inr (front, p, e) ↦ inr (a ∷ front, p, ap (λ (x : List ℕ). a ∷ x) e)
]

module _ (h : Heap) (m n : ℕ) (r : List ℕ) (room : h.blist_size < 4294967296)
    (join : (is_free (h.size n) ≡ false) ⊎ (n ≢ h.fsll_end)) where
  Released-first :
      (address : ℕ)
      → IsHeap h (m ∷ n ∷ r)
      → find_block h.blist_size h address h.fsll_start h.hstart_addr ≡ some m
      → Released h address m n [] r
  Released-first address ok found =
      let (x, rest, ok', list, start, count, remaining, bytes) =
        free_marker-FreedList h m n [] r ok room join in
      (
        done (free_marker h m),
        m ∷ x ∷ rest,
        release_first h m address found (start ∙ Markers-start h m (n ∷ r) ok.markers),
        ok',
        remaining,
        inl (elim list [
          | inl e ↦ inl (ap (λ (l : List ℕ). m ∷ l) e)
          | inr e ↦ inr (ap (λ (l : List ℕ). m ∷ l) e)
        ]),
        (λ exact small. (bytes exact).3),
      )

  enough_rounds :
      (front : List ℕ) (p x : ℕ) (rest : List ℕ)
      → (x ∷ rest ≡ n ∷ r) ⊎ (x ∷ rest ≡ r)
      → h.blist_size ≡ length (front ++ (p ∷ m ∷ n ∷ r))
      → length (front ++ (p ∷ m ∷ x ∷ rest)) ≤ h.blist_size + 1
  enough_rounds front p x rest list counted =
      let before = length-append {0} front (p ∷ m ∷ n ∷ r) in
      let after = length-append {0} front (p ∷ m ∷ x ∷ rest) in
      elim list [
        | inl e ↦
            let same = ap (λ (l : List ℕ). length l) e in
            omega (arith, before, after, same, counted)
        | inr e ↦
            let same = ap (λ (l : List ℕ). length l) e in
            omega (arith, before, after, same, counted)
      ]

  behind_ne : (p : ℕ) → Links h p (m ∷ n ∷ r) → p ≢ m
  unfolding Links
  behind_ne p l = Links-ne h p m (m ∷ n ∷ r) (n ∷ r) l l.3 (omega arith)

  Released-behind :
      (address p : ℕ) (front : List ℕ)
      → IsHeap h (front ++ (p ∷ m ∷ n ∷ r))
      → find_block h.blist_size h address h.fsll_start h.hstart_addr ≡ some m
      → Released h address m n (front ++ (p ∷ [])) r
  Released-behind address p front ok found =
      let split = append_assoc front (p ∷ []) (m ∷ n ∷ r) in
      let (x, rest, ok', list, start, count, remaining, bytes) =
        free_marker-FreedList h m n (front ++ (p ∷ [])) r (subst (λ l. IsHeap h l) (sym split) ok)
          room join in
      let ok2 : IsHeap (done (free_marker h m)) (front ++ (p ∷ m ∷ x ∷ rest)) =
        subst (λ l. IsHeap (done (free_marker h m)) l) (append_assoc front (p ∷ []) (m ∷ x ∷ rest))
          ok' in
      let (outcome, same) =
        join_before-JoinedList (free_marker h m) p m x front rest ok2 count
          (join_before (free_marker h m) m p) refl in
      let released =
        release_behind h m p address found
          (Markers-start_ne (done (free_marker h m)) p m front (x ∷ rest) ok2.markers)
          (find_before-Markers (done (free_marker h m)) (free_marker h m).heap p m front (x ∷ rest)
            (λ y ne. refl) ok2.markers refl (h.blist_size + 1)
            (enough_rounds front p x rest list ok.counted)) in
      let p_ne : p ≢ m =
        let (_, l) = Markers-at h p front (m ∷ n ∷ r) ok.markers in behind_ne p l in
      let joins : SameBytes h (free_marker h m) m n ((front ++ (p ∷ [])) ++ (m ∷ n ∷ r))
            ((front ++ (p ∷ [])) ++ (m ∷ x ∷ rest))
          → Small h
          → Joins (free_marker h m) p m =
        λ b small. (b.0, omega (arith, b.1, b.2 p p_ne, small p, small m, small n)) in
      let freed_total : SameBytes h (free_marker h m) m n ((front ++ (p ∷ [])) ++ (m ∷ n ∷ r))
            ((front ++ (p ∷ [])) ++ (m ∷ x ∷ rest))
          → total (done (free_marker h m)) (front ++ (p ∷ m ∷ x ∷ rest))
            ≡ total h ((front ++ (p ∷ [])) ++ (m ∷ n ∷ r)) =
        λ b.
          ap (λ (l : List ℕ). total (done (free_marker h m)) l)
            (sym (append_assoc front (p ∷ []) (m ∷ x ∷ rest)))
          ∙ b.3 in
      elim outcome [
        | inl (both, total_both) ↦ (
          done (join_before (free_marker h m) m p),
          (front ++ (p ∷ [])) ++ (m ∷ x ∷ rest),
          released,
          subst (λ l. IsHeap (done (join_before (free_marker h m) m p)) l)
              (sym (append_assoc front (p ∷ []) (m ∷ x ∷ rest))) both,
          same ∙ remaining,
          inl (elim list [
            | inl e ↦ inl (ap (λ (l : List ℕ). (front ++ (p ∷ [])) ++ (m ∷ l)) e)
            | inr e ↦ inr (ap (λ (l : List ℕ). (front ++ (p ∷ [])) ++ (m ∷ l)) e)
          ]),
          (λ exact small.
              ap (λ (l : List ℕ). total (done (join_before (free_marker h m) m p)) l)
                (append_assoc front (p ∷ []) (m ∷ x ∷ rest))
              ∙ total_both (joins (bytes exact) small)
              ∙ freed_total (bytes exact)),
        )
        | inr (one, total_one) ↦ (
          done (join_before (free_marker h m) m p),
          (front ++ (p ∷ [])) ++ (x ∷ rest),
          released,
          subst (λ l. IsHeap (done (join_before (free_marker h m) m p)) l)
              (sym (append_assoc front (p ∷ []) (x ∷ rest))) one,
          same ∙ remaining,
          inr (elim list [
            | inl e ↦ inl (ap (λ (l : List ℕ). (front ++ (p ∷ [])) ++ l) e)
            | inr e ↦ inr (ap (λ (l : List ℕ). (front ++ (p ∷ [])) ++ l) e)
          ]),
          (λ exact small.
              ap (λ (l : List ℕ). total (done (join_before (free_marker h m) m p)) l)
                (append_assoc front (p ∷ []) (x ∷ rest))
              ∙ total_one (joins (bytes exact) small)
              ∙ freed_total (bytes exact)),
        )
      ]

-- The block of a marker that is not the last one is released.
pub release_allocated_marker-Released :
    (h : Heap) (m n : ℕ) (front r : List ℕ)
    → IsHeap h (front ++ (m ∷ n ∷ r))
    → h.blist_size < 4294967296
    → Sized h front
    → h.hstart_addr + total h front < 4294967296
    → (is_free (h.size n) ≡ false) ⊎ (n ≢ h.fsll_end)
    → Released h (h.hstart_addr + total h front) m n front r
release_allocated_marker-Released h m n front r ok room sized below join =
    let found = find_block-IsHeap h m front (n ∷ r) ok sized below in
    elim (list_cases front) [
      | inl e ↦
          subst (λ l. Released h (h.hstart_addr + total h front) m n l r) (sym e)
            (Released-first h m n r room join _ (subst (λ l. IsHeap h (l ++ (m ∷ n ∷ r))) e ok)
              found)
      | inr (before, p, e) ↦
          let ok' : IsHeap h ((before ++ (p ∷ [])) ++ (m ∷ n ∷ r)) =
            subst (λ l. IsHeap h (l ++ (m ∷ n ∷ r))) e ok in
          subst (λ l. Released h (h.hstart_addr + total h front) m n l r) (sym e)
            (Released-behind h m n r room join _ p before
              (subst (λ l. IsHeap h l) (append_assoc before (p ∷ []) (m ∷ n ∷ r)) ok') found)
    ]
