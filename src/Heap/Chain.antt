-- ===== src/Heap/Chain.antt =====
-- The markers of the heap of src/heap.c as a list of addresses: each leads to the next one, and the last
-- one is at `fsll_end`. A heap with no marker starts and ends at one empty word.
pub mod Change
pub mod Init
pub mod Bytes
use skibios.Prelude.{
  ℕ, suc, ◌+◌, ◌*◌, ◌%◌, ◌≡◌, ◌≢◌, ◌<◌, Bool, true, false, List, [], ◌∷◌, ◌++◌, length, ◌==◌, ltb,
  leb, ◌||◌, if◌then◌else◌, arith, u16, u32,
}
use skibios.Heap.{Heap, clear_mask, sext16, next_marker, distance, fits_offset, is_empty}

-- The word at the address is in use, and is aligned.
abbrev pub IsMarker : Heap → ℕ → Type 0
IsMarker h a = (is_empty h a ≡ false) × (a % 4 ≡ 0) × (a < 4294967296)

-- From the marker at the address on: each of the rest, and the last one is at `fsll_end`.
unfoldable pub Links : Heap → ℕ → List ℕ → Type 0
Links h a [] = a ≡ h.fsll_end
Links h a (b ∷ rest) = (a ≢ h.fsll_end) × (next_marker h a ≡ b) × IsMarker h b × Links h b rest

unfoldable pub Markers : Heap → List ℕ → Type 0
Markers h [] = (h.fsll_end ≡ h.fsll_start) × (is_empty h h.fsll_start ≡ true)
Markers h (a ∷ rest) = (h.fsll_start ≡ a) × IsMarker h a × Links h a rest

pub record IsHeap (h : Heap) (ms : List ℕ) : Type 0 where
  pub markers : Markers h ms
  pub at_bstart : h.fsll_start ≡ h.bstart_addr
  pub aligned : h.bstart_addr % 4 ≡ 0
  pub in_range : h.bstart_addr < 4294967296
  pub hstart_in_range : h.hstart_addr < 4294967296
  pub ended : h.offset h.fsll_end ≡ 0
  pub counted : h.blist_size ≡ length ms

-- The blocks start where they did, and as many bytes remain.
abbrev pub Same : Heap → Heap → Type 0
Same h h' = (h'.hstart_addr ≡ h.hstart_addr) × (h'.heap_remaining ≡ h.heap_remaining)

-- The bytes of the blocks of the markers.
unfoldable pub total : Heap → List ℕ → ℕ
total h [] = 0
total h (a ∷ rest) = clear_mask (h.size a) + total h rest

-- What `next_marker` makes of the distance from one word to another.
pub step_to :
    (a b : ℕ)
    → a % 4 ≡ 0
    → b % 4 ≡ 0
    → a < 4294967296
    → b < 4294967296
    → fits_offset (distance a b) ≡ true
    → u32 (b + sext16 (u16 (distance a b)) * 4) ≡ a
step_to a b a4 b4 a32 b32 fits = ground arith
