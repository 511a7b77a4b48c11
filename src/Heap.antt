-- ===== src/Heap.antt =====
-- The heap of src/heap.c: its state, `heap_init`, and what its routines share. A marker is a word of the
-- bookkeeping region, in two half-words: the size of a block, with FREE_HEADER_MASK for a free one,
-- and the signed distance in words to the next marker, 0 at the last. `size` and `offset` hold
-- them by the address of the word. The blocks follow one another from `hstart_addr`.
pub mod Chain
pub mod Search
pub mod Append
pub mod Release
pub mod Service
use skibios.Prelude.{
  ℕ, zero, suc, ◌+◌, ◌-◌, ◌*◌, ◌/◌, ◌%◌, Bool, ◌&&◌, ◌||◌, ◌==◌, ltb, leb, if◌then◌else◌, Option,
  none, some, update, u16, u32, sub32,
}
use skibios.Prelude.Loops.{for_range}

pub record Heap : Type 0 where
  pub hstart_addr : ℕ
  pub bstart_addr : ℕ
  pub heap_remaining : ℕ
  pub fsll_start : ℕ
  pub fsll_end : ℕ
  pub blist_size : ℕ
  pub size : ℕ → ℕ
  pub offset : ℕ → ℕ

-- HEAP_BOOKEEPING_SIZE, a number of words, and the addresses of __heap_start__ and _ghmb_addr.
pub record HeapConfig : Type 0 where
  pub heap_bookeeping_size : ℕ
  pub heap_start_addr : ℕ
  pub ghmb_addr : ℕ

-- FREE_HEADER_MASK is bit 15: TST, BIC and ORR on a half-word.
abbrev pub is_free : ℕ → Bool
is_free header = leb 32768 header

abbrev pub clear_mask : ℕ → ℕ
clear_mask header = header % 32768

abbrev pub set_mask : ℕ → ℕ
set_mask header = header % 32768 + 32768

-- LDRSH: the pattern of an `int16_t`, sign-extended to 32 bits.
abbrev pub sext16 : ℕ → ℕ
sext16 h = if ltb h 32768 then h else h + 4294901760

-- `ADD R1, R1, R4, LSL #2` after `LDRSH R4, [R1, #2]`
abbrev pub next_marker : Heap → ℕ → ℕ
next_marker h marker = u32 (marker + sext16 (h.offset marker) * 4)

-- `SUB R4, a, b` and the signed division of it by 4.
abbrev pub distance : ℕ → ℕ → ℕ
distance a b =
    let d = sub32 a b in if ltb d 2147483648 then d / 4 else sub32 0 ((4294967296 - d) / 4)

-- Not `CMN r, 0x8000; BLE` and not `CMP r, 0x8000; BGE`: the signed number fits an offset.
abbrev pub fits_offset : ℕ → Bool
fits_offset r = ltb r 32768 || ltb 4294934528 r

-- The signed comparison of two words.
abbrev pub signed_lt : ℕ → ℕ → Bool
signed_lt a b = ltb (u32 (a + 2147483648)) (u32 (b + 2147483648))

-- LDR and CMP with 0.
abbrev pub is_empty : Heap → ℕ → Bool
is_empty h a = (h.size a == 0) && (h.offset a == 0)

-- The two STRH, and the STR of 0.
abbrev pub set_size : ℕ → ℕ → Heap → Heap
set_size a value h = record h { size = update h.size a (u16 value) }

abbrev pub set_offset : ℕ → ℕ → Heap → Heap
set_offset a value h = record h { offset = update h.offset a (u16 value) }

abbrev pub clear_marker : ℕ → Heap → Heap
clear_marker a h = record h { size = update h.size a 0; offset = update h.offset a 0 }

-- The loop in assembly: `STR R2, [R3, R1, LSL #2]` for R1 from HEAP_BOOKEEPING_SIZE down to 1.
unfoldable pub clear_region : ℕ → ℕ → Heap → Heap
clear_region zero start h = h
clear_region (suc n) start h = clear_region n start (clear_marker (u32 (start + suc n * 4)) h)

-- DEVICE_SRAM_START + DEVICE_SRAM_SIZE is 0x20040000; `rem` is added as it is.
unfoldable pub heap_init : HeapConfig → Heap → Heap
unfolding clear_region
heap_init c h =
    let start = u32 (c.heap_start_addr + c.heap_start_addr % 4) in
    let cleared = clear_region c.heap_bookeeping_size c.ghmb_addr h in
    let last = u32 (c.ghmb_addr + c.heap_bookeeping_size * 4 - 4) in
    record cleared {
      hstart_addr = start;
      bstart_addr = last;
      fsll_start = last;
      fsll_end = last;
      blist_size = 0;
      heap_remaining = sub32 0x20040000 start;
    }

-- `heap_allocate` up to the service: the size that is asked for, or `none` for the null pointer.
unfoldable pub heap_request : Heap → ℕ → Option ℕ
heap_request h size =
    let rem = size % 4 in
    let rounded = u32 (size + (if rem == 0 then 0 else 4 - rem)) in
    if ltb 32767 rounded
    then none
    else (if ltb h.heap_remaining rounded then none else some rounded)
