-- ===== src/Task/Levels.antt =====
-- `level_stash`: the levels in use. The binary search and the insertion of
-- `svc_service_task_create` (src/service/svr_task.c).
pub mod Search
pub mod Insert
use skibios.Prelude.{
  ℕ, zero, suc, ◌+◌, ◌-◌, ◌/◌, Option, none, some, ltb, leb, ◌==◌, if◌then◌else◌, update, u8, sub32,
}
use skibios.Kvar.{Kernel}

-- How the search ends: at `proc_continue`, after the loop with the last `search_index`, or never.
pub data Probe : Type 0 where
  found : Probe
  absent : ℕ → Probe
  endless : Probe

-- `search_index = lower_index + ((j - lower_index)/2)`
abbrev pub middle : ℕ → ℕ → ℕ
middle lower j = u8 (lower + (j - lower) / 2)

-- while(lower_index <= j) { … }
unfoldable pub search_level : ℕ → (ℕ → ℕ) → ℕ → ℕ → ℕ → ℕ → Probe
search_level zero stash p lower j search_index = endless
search_level (suc fuel) stash p lower j search_index =
    let m = middle lower j in
    let right = search_level fuel stash p (u8 (m + 1)) j m in
    let left = search_level fuel stash p lower (sub32 m 1) m in
    if leb lower j
    then (if stash m == p then found else (if ltb (stash m) p then right else left))
    else absent search_index

-- The rounds `j = search_index + n, …, search_index + 1` of the shifting loop.
unfoldable pub shift_levels : ℕ → ℕ → (ℕ → ℕ) → ℕ → ℕ
shift_levels zero search_index stash = stash
shift_levels (suc n) search_index stash =
    shift_levels n search_index (update stash (search_index + suc n) (stash (search_index + n)))

-- With `lstash_ptr` at MAX_TASK_COUNT this writes behind the array; `fill_slot` then faults.
unfoldable pub insert_level : Kernel → ℕ → ℕ → Kernel
unfolding shift_levels
insert_level k p search_index = record k {
  level_stash =
      update (shift_levels (k.lstash_ptr - search_index) search_index k.level_stash) search_index p;
  lstash_ptr = u8 (k.lstash_ptr + 1);
}

-- The range of the search is a `uint8_t` wide.
abbrev pub search_fuel : ℕ
search_fuel = 257

-- `none`: the search does not end within its fuel.
unfoldable pub record_level : Kernel → ℕ → Option Kernel
record_level k i =
    elim (search_level search_fuel k.level_stash (k.prio_current i) 0 k.lstash_ptr 0) [
      | found ↦ some k
      | absent search_index ↦ some (insert_level k (k.prio_current i) search_index)
      | endless ↦ none
    ]
