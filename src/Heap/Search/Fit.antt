-- ===== src/Heap/Search/Fit.antt =====
-- The marker that `search_free_marker` of src/heap.c takes: the first one that suits.
use skibios.Prelude.{
  ℕ, zero, suc, ◌+◌, ◌<◌, ◌≡◌, refl, ap, ◌∙◌, Bool, true, false, ◌&&◌, none, some, List, [], ◌∷◌,
  ◌++◌, length, length-append, leb, if◌then◌else◌, arith, u32,
}
use skibios.Heap.{Heap, HeapConfig, is_free, clear_mask, next_marker}
use skibios.Heap.Chain.{Links, Markers, IsHeap, total}
use skibios.Heap.Search.{find_free, search_free_marker}

-- The marker is free, and its block has room for the size.
abbrev pub suits : Heap → ℕ → ℕ → Bool
suits h size m = is_free (h.size m) && leb size (clear_mask (h.size m))

unfoldable pub NoneSuits : Heap → ℕ → List ℕ → Type 0
NoneSuits h size [] = Unit
NoneSuits h size (m ∷ rest) = (suits h size m ≡ false) × NoneSuits h size rest

find_free_step :
    (h : Heap) (size m address rounds : ℕ)
    → size < 32768
    → find_free (suc rounds) h size m address ≡ (
        if suits h size m
        then some (m, address)
        else find_free rounds h size (next_marker h m) (u32 (address + clear_mask (h.size m))))
unfolding find_free
find_free_step h size m address rounds small = ground arith

module _ (h : Heap) (size : ℕ) (small : size < 32768) where
  find_free-suits :
      (m address rounds : ℕ)
      → suits h size m ≡ true
      → find_free (suc rounds) h size m address ≡ some (m, address)
  find_free-suits m address rounds fits =
      find_free_step h size m address rounds small ∙ rw fits refl

  find_free_skips :
      (a b address rounds : ℕ)
      → suits h size a ≡ false
      → next_marker h a ≡ b
      → find_free (suc rounds) h size a address
        ≡ find_free rounds h size b (u32 (address + clear_mask (h.size a)))
  find_free_skips a b address rounds unfit nx =
      find_free_step h size a address rounds small ∙ rw (unfit, nx) refl

  find_free-Links :
      (a m address : ℕ) (front r : List ℕ) (rounds : ℕ)
      → Links h a (front ++ (m ∷ r))
      → NoneSuits h size (a ∷ front)
      → suits h size m ≡ true
      → suc (length front) < rounds
      → find_free rounds h size a address ≡ some (m, u32 (address + total h (a ∷ front)))
  unfolding Links NoneSuits total
  find_free-Links a m address front r zero l unfit fits enough = absurd (omega (arith, enough))
  find_free-Links a m address [] r (suc zero) l unfit fits enough = absurd (omega (arith, enough))
  find_free-Links a m address [] r (suc (suc rounds)) (_, nx, _, _) (unfit, _) fits enough =
      find_free_skips a m address (suc rounds) unfit nx
      ∙ find_free-suits m _ rounds fits
      ∙ ap (λ (x : ℕ). some (m, x)) (omega arith)
  find_free-Links a m address (b ∷ front) r (suc rounds) (_, nx, _, l) (unfit, unfit_rest) fits
        enough =
      find_free_skips a b address rounds unfit nx
      ∙ find_free-Links b m _ front r rounds l unfit_rest fits (omega (arith, enough))
      ∙ ap (λ (x : ℕ). some (m, x)) (omega arith)

  find_free-NoneSuits :
      (a address : ℕ) (rest : List ℕ)
      → Links h a rest
      → NoneSuits h size (a ∷ rest)
      → find_free (suc (length rest)) h size a address ≡ none
  unfolding Links NoneSuits find_free
  find_free-NoneSuits a address [] l (unfit, _) = find_free_skips a _ address zero unfit refl
  find_free-NoneSuits a address (b ∷ rest) (_, nx, _, l) (unfit, unfit_rest) =
      find_free_skips a b address (suc (length rest)) unfit nx
      ∙ find_free-NoneSuits b _ rest l unfit_rest

find_from_start :
    (h : Heap) (size : ℕ) {a n : ℕ}
    → h.fsll_start ≡ a
    → h.blist_size ≡ n
    → find_free h.blist_size h size h.fsll_start h.hstart_addr ≡ find_free n h size a h.hstart_addr
find_from_start h size start counted = λ i. find_free (counted i) h size (start i) h.hstart_addr

search_result :
    (c : HeapConfig) (h : Heap) (size : ℕ)
    → find_free h.blist_size h size h.fsll_start h.hstart_addr ≡ none
    → search_free_marker c h size ≡ (h, 0)
unfolding search_free_marker
search_result c h size found = rw (found, search_free_marker) refl

-- The first marker that suits is found, with the address of its block.
pub find_free_first :
    (h : Heap) (size m : ℕ) (front r : List ℕ)
    → IsHeap h (front ++ (m ∷ r))
    → size < 32768
    → NoneSuits h size front
    → suits h size m ≡ true
    → find_free h.blist_size h size h.fsll_start h.hstart_addr
      ≡ some (m, u32 (h.hstart_addr + total h front))
unfolding Markers total
find_free_first h size m [] r ok small unfit fits =
    let (start, _, _) = ok.markers in
    find_from_start h size start ok.counted
    ∙ (find_free-suits h size small m h.hstart_addr (length r) fits
        ∙ ap (λ (x : ℕ). some (m, x)) (omega (arith, ok.hstart_in_range)))
find_free_first h size m (a ∷ front) r ok small unfit fits =
    let (start, _, l) = ok.markers in
    let enough = length-append {0} front (m ∷ r) in
    find_from_start h size start ok.counted
    ∙ find_free-Links h size small a m h.hstart_addr front r _ l unfit fits (omega (arith, enough))

-- Where no marker suits, the search changes nothing and returns 0.
pub search_free_marker-NoneSuits :
    (c : HeapConfig) (h : Heap) (ms : List ℕ) (size : ℕ)
    → IsHeap h ms
    → size < 32768
    → NoneSuits h size ms
    → search_free_marker c h size ≡ (h, 0)
unfolding Markers find_free
search_free_marker-NoneSuits c h [] size ok small unfit =
    search_result c h size (find_from_start h size refl ok.counted)
search_free_marker-NoneSuits c h (a ∷ rest) size ok small unfit =
    let (start, _, l) = ok.markers in
    search_result c h size (
      find_from_start h size start ok.counted
      ∙ find_free-NoneSuits h size small a h.hstart_addr rest l unfit)
