-- ===== src/Heap/Search/Take.antt =====
-- What `search_free_marker` of src/heap.c makes of the marker that it takes.
use skibios.Prelude.{
  ℕ, ◌+◌, ◌-◌, ◌%◌, ◌<◌, ◌≤◌, ◌≡◌, ◌⊎◌, inl, inr, refl, sym, ap, subst, ◌∙◌, true, Bool-cases,
  Option-cases, some, List, ◌∷◌, ◌++◌, ◌==◌, arith, u32, u16, sub32, update, update_self, update_ne,
  update_back,
}
use skibios.Heap.{Heap, HeapConfig, clear_mask, set_mask, sext16, distance, fits_offset, is_empty}
use skibios.Heap.Chain.{Same, IsHeap, total}
use skibios.Heap.Search.{find_free, find_space, split_marker, take_marker, search_free_marker}
use skibios.Heap.Search.Fit.{suits, NoneSuits, find_free_first}
use skibios.Heap.Search.Split.{find_space_lem, kept_lem, split-IsHeap}

-- The markers stay, and the block of the given one is allocated as it is.
abbrev pub Whole : Heap → Heap → ℕ → List ℕ → Type 0
Whole h h' m ms = IsHeap h' ms × ((x : ℕ) → h'.size x ≡ update h.size m (clear_mask (h.size m)) x)

-- The block of the given marker is allocated with the size, and what remains has a free marker behind it.
abbrev pub InTwo : Heap → Heap → ℕ → ℕ → List ℕ → List ℕ → Type 0
InTwo h h' size m front r =
    (s : ℕ) × (is_empty h s ≡ true)
    × IsHeap h' (front ++ (m ∷ s ∷ r))
    × ((x : ℕ)
        → h'.size x ≡ update (update h.size s (set_mask (clear_mask (h.size m) - size))) m size x)

module _ (h : Heap) (m b : ℕ) (front post : List ℕ) (ok : IsHeap h (front ++ (m ∷ b ∷ post)))
    (room : h.blist_size < 4294967295) (size : ℕ) (pos : 0 < size)
    (enough : size ≤ clear_mask (h.size m)) where
  whole :
      (h' : Heap) (f g : ℕ → ℕ)
      → h' ≡ record h { size = f; offset = g }
      → ((x : ℕ) → f x ≡ update h.size m (clear_mask (h.size m)) x)
      → ((x : ℕ) → g x ≡ h.offset x)
      → Whole h h' m (front ++ (m ∷ b ∷ post))
  whole h' f g e sizes offsets =
      let at_m : f m ≡ clear_mask (h.size m) = sizes m ∙ update_self h.size m _ in
      subst (λ x. Whole h x m (front ++ (m ∷ b ∷ post))) (sym e)
        (
          kept_lem h m front (b ∷ post) f g ok (λ x ne. sizes x ∙ update_ne h.size m _ x ne) offsets
              (omega (arith, at_m, pos, enough)),
          sizes,
        )

  sizes_whole :
      (x : ℕ)
      → update h.size m (u16 (sub32 (clear_mask (h.size m)) size + size)) x
        ≡ update h.size m (clear_mask (h.size m)) x
  sizes_whole x =
      let cut : u16 (sub32 (clear_mask (h.size m)) size + size) ≡ clear_mask (h.size m) =
        omega (arith, enough) in
      ap (λ (v : ℕ). update h.size m v x) cut

  sizes_exact :
      (x : ℕ)
      → (sub32 (clear_mask (h.size m)) size == 0) ≡ true
      → update h.size m (u16 size) x ≡ update h.size m (clear_mask (h.size m)) x
  sizes_exact x exact =
      let cut : u16 size ≡ clear_mask (h.size m) = ground (arith, enough, exact) in
      ap (λ (v : ℕ). update h.size m v x) cut

  module _ (s : ℕ) (empty : is_empty h s ≡ true) (s4 : s % 4 ≡ 0) (s32 : s < 4294967296) where
    in_two :
        (h' : Heap)
        → h' ≡ record h {
          blist_size = u32 (h.blist_size + 1);
          size =
              update
                (update h.size s (u16 (set_mask (sub32 (clear_mask (h.size m)) size))))
                m
                (u16 size);
          offset =
              update
                (update h.offset s (u16 (u32 (distance m s + sext16 (h.offset m)))))
                m
                (u16 (distance s m));
        }
        → fits_offset (u32 (distance m s + sext16 (h.offset m))) ≡ true
        → fits_offset (distance s m) ≡ true
        → InTwo h h' size m front (b ∷ post)
    in_two h' e fits_next fits_split =
        let small : size < 32768 = omega (arith, enough) in
        subst (λ x. InTwo h x size m front (b ∷ post)) (sym e)
          (
            s,
            empty,
            split-IsHeap h m s b front post ok empty s4 s32 size
                (sub32 (clear_mask (h.size m)) size) pos small fits_next fits_split room,
            (λ x. rw (cut_remaining, cut_size) refl),
          )
      where
        cut_remaining :
            u16 (set_mask (sub32 (clear_mask (h.size m)) size))
            ≡ set_mask (clear_mask (h.size m) - size)
        cut_remaining = omega (arith, enough)

        cut_size : u16 size ≡ size
        cut_size = omega (arith, enough)

    split_marker-IsHeap :
        (h' : Heap)
        → h' ≡ split_marker h size (sub32 (clear_mask (h.size m)) size) m s
        → Whole h h' m (front ++ (m ∷ b ∷ post)) ⊎ InTwo h h' size m front (b ∷ post)
    unfolding split_marker
    split_marker-IsHeap h' e =
        elim (Bool-cases (fits_offset (u32 (distance m s + sext16 (h.offset m))))) [
          | inl fits_next ↦ elim (Bool-cases (fits_offset (distance s m))) [
            | inl fits_split ↦
                inr (in_two h' (rw (fits_next, fits_split) at e) fits_next fits_split)
            | inr far ↦ inl (
                whole h' _ _ (rw (fits_next, far) at e)
                  (λ x.
                    (λ i. update (back i) m (u16 (sub32 (clear_mask (h.size m)) size + size)) x)
                    ∙ sizes_whole x)
                  (λ x. update_back h.offset s _ 0 x zero_offset))
          ]
          | inr far ↦ inl (whole h' _ _ (rw far at e) sizes_whole (λ x. refl))
        ]
      where
        zero_size : h.size s ≡ 0
        zero_size = ground (arith, empty)

        zero_offset : h.offset s ≡ 0
        zero_offset = ground (arith, empty)

        back :
            update (update h.size s (u16 (set_mask (sub32 (clear_mask (h.size m)) size)))) s 0
            ≡ h.size
        back = λ i x.
            update_back h.size s (u16 (set_mask (sub32 (clear_mask (h.size m)) size))) 0 x zero_size
              i

  take_marker-IsHeap :
      (c : HeapConfig) (h' : Heap)
      → h' ≡ take_marker c h size m
      → Whole h h' m (front ++ (m ∷ b ∷ post)) ⊎ InTwo h h' size m front (b ∷ post)
  unfolding take_marker
  take_marker-IsHeap c h' e = elim (Bool-cases (sub32 (clear_mask (h.size m)) size == 0)) [
    | inl exact ↦ inl (whole h' _ _ (rw exact at e) (λ x. sizes_exact x exact) (λ x. refl))
    | inr more ↦ elim (Option-cases (find_space c.heap_bookeeping_size h)) [
      | inl full ↦ inl (whole h' _ _ (rw (more, full) at e) sizes_whole (λ x. refl))
      | inr (s, found) ↦
          let (empty, s4, s32) = find_space_lem _ h s ok.aligned found in
          split_marker-IsHeap s empty s4 s32 h' (rw (more, found) at e)
    ]
  ]

pub split_marker-Same :
    (h : Heap) (size remaining m s : ℕ) → Same h (split_marker h size remaining m s)
unfolding split_marker
split_marker-Same h size remaining m s =
    elim (Bool-cases (fits_offset (u32 (distance m s + sext16 (h.offset m))))) [
      | inl fits_next ↦ elim (Bool-cases (fits_offset (distance s m))) [
        | inl fits_split ↦ rw (fits_next, fits_split) (refl, refl)
        | inr far ↦ rw (fits_next, far) (refl, refl)
      ]
      | inr far ↦ rw far (refl, refl)
    ]

take_marker-Same : (c : HeapConfig) (h : Heap) (size m : ℕ) → Same h (take_marker c h size m)
unfolding take_marker
take_marker-Same c h size m = elim (Bool-cases (sub32 (clear_mask (h.size m)) size == 0)) [
  | inl exact ↦ rw exact (refl, refl)
  | inr more ↦ elim (Option-cases (find_space c.heap_bookeeping_size h)) [
    | inl full ↦ rw (more, full) (refl, refl)
    | inr (s, found) ↦ rw (more, found) (split_marker-Same h size _ m s)
  ]
]

pub search_takes :
    (c : HeapConfig) (h : Heap) (size m address : ℕ)
    → find_free h.blist_size h size h.fsll_start h.hstart_addr ≡ some (m, address)
    → search_free_marker c h size ≡ (take_marker c h size m, address)
unfolding search_free_marker
search_takes c h size m address found = rw (found, search_free_marker) refl

pub suits_enough : (h : Heap) (size m : ℕ) → suits h size m ≡ true → size ≤ clear_mask (h.size m)
suits_enough h size m fits = ground arith

-- The first marker that suits is taken, as it is or split in two, and the address of its block is returned.
pub search_free_marker-IsHeap :
    (c : HeapConfig) (h : Heap) (m b size : ℕ) (front post : List ℕ)
    → IsHeap h (front ++ (m ∷ b ∷ post))
    → h.blist_size < 4294967295
    → 0 < size
    → size < 32768
    → NoneSuits h size front
    → suits h size m ≡ true
    → (h' : Heap) × (search_free_marker c h size ≡ (h', u32 (h.hstart_addr + total h front)))
      × Same h h'
      × (Whole h h' m (front ++ (m ∷ b ∷ post)) ⊎ InTwo h h' size m front (b ∷ post))
search_free_marker-IsHeap c h m b size front post ok room pos small unfit fits = (
  take_marker c h size m,
  search_takes c h size m _ (find_free_first h size m front (b ∷ post) ok small unfit fits),
  take_marker-Same c h size m,
  take_marker-IsHeap h m b front post ok room size pos (suits_enough h size m fits) c _ refl,
)
