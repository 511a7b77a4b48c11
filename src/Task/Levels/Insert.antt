-- ===== src/Task/Levels/Insert.antt =====
-- What the creation of a task does to `level_stash` (src/service/svr_task.c).
use skibios.Prelude.{
  ℕ, zero, suc, ◌+◌, ◌-◌, ◌≤◌, ◌<◌, ◌≡◌, ◌&&◌, dec_lt, some, arith, ltb, leb, ◌==◌, if◌then◌else◌,
  update,
}
use skibios.Kvar.{Kernel}
use skibios.Task.Levels.{
  absent, search_level, search_fuel, shift_levels, insert_level, record_level,
}
use skibios.Task.Levels.Search.{search_level-found, search_level-top}

-- The levels in use are in strictly increasing order, with the base task's level 0 first.
pub record IsOrdered (k : Kernel) : Type 0 where
  pub base : k.level_stash 0 ≡ 0
  pub some_level : 0 < k.lstash_ptr
  pub few : k.lstash_ptr ≤ 120
  pub increasing : (p q : ℕ) → p < q → q < k.lstash_ptr → k.level_stash p < k.level_stash q

shift_levels_lem :
    (n s : ℕ) (stash : ℕ → ℕ) (j : ℕ)
    → shift_levels n s stash j ≡ (if ltb s j && leb j (s + n) then stash (j - 1) else stash j)
unfolding shift_levels
shift_levels_lem zero s stash j = ground arith
shift_levels_lem (suc n) s stash j =
    ground (arith, shift_levels_lem n s (update stash (s + suc n) (stash (s + n))) j)

-- The insertion at an index: what stood there and behind it moves up by one place.
pub insert_level_lem :
    (k : Kernel) (p s j : ℕ)
    → s ≤ k.lstash_ptr
    → (insert_level k p s).level_stash j ≡ (
        if j == s
        then p
        else (if ltb s j && leb j k.lstash_ptr then k.level_stash (j - 1) else k.level_stash j))
unfolding insert_level
insert_level_lem k p s j h = ground (arith, shift_levels_lem (k.lstash_ptr - s) s k.level_stash j)

insert_level-size :
    (k : Kernel) (p s : ℕ) → k.lstash_ptr < 120 → (insert_level k p s).lstash_ptr ≡ k.lstash_ptr + 1
unfolding insert_level
insert_level-size k p s h = omega arith

pub IsOrdered-mono :
    (k : Kernel)
    → IsOrdered k
    → (p q : ℕ) → p ≤ q
    → q < k.lstash_ptr
    → k.level_stash p ≤ k.level_stash q
IsOrdered-mono k o p q h l = elim (dec_lt p q) [
  | yes u ↦ omega (arith, o.increasing p q u l)
  | no u ↦ let same : p ≡ q = omega arith in ground arith
]

-- With levels in increasing order, a level that is in use is found, and the kernel stays as it is.
pub record_level-known :
    (k : Kernel) (i q : ℕ)
    → IsOrdered k
    → q < k.lstash_ptr
    → k.level_stash q ≡ k.prio_current i
    → record_level k i ≡ some k
unfolding record_level
record_level-known k i q o l e = rw (
  search_level-found search_fuel k.level_stash (k.prio_current i) k.lstash_ptr q 0 k.lstash_ptr 0
      (IsOrdered-mono k o) e l (omega arith) (omega arith) (omega arith) (omega (arith, o.few))
      (omega (arith, o.few)) (λ a h f. ground (arith, o.increasing a q, o.increasing q a)),
  record_level,
)

-- With levels in increasing order, a level above all of them, and above what the unused place behind them
-- holds, is appended, and the order is kept.
pub record_level-IsOrdered :
    (k : Kernel) (i : ℕ)
    → IsOrdered k
    → k.lstash_ptr < 120
    → ((q : ℕ) → q ≤ k.lstash_ptr → k.level_stash q < k.prio_current i)
    → (k' : Kernel) × (record_level k i ≡ some k')
      × IsOrdered k'
      × (k'.lstash_ptr ≡ k.lstash_ptr + 1)
      × (k'.level_stash k.lstash_ptr ≡ k.prio_current i)
unfolding record_level
record_level-IsOrdered k i o b a =
    let k' = insert_level k (k.prio_current i) k.lstash_ptr in
    let e =
      search_level-top search_fuel k.level_stash (k.prio_current i) k.lstash_ptr 0 0 a (omega arith)
        (omega arith) (omega arith) in
    let at : (j : ℕ)
        → k'.level_stash j ≡ (if j == k.lstash_ptr then k.prio_current i else k.level_stash j) =
      λ j. ground (arith, insert_level_lem k (k.prio_current i) k.lstash_ptr j) in
    let size : k'.lstash_ptr ≡ k.lstash_ptr + 1 =
      insert_level-size k (k.prio_current i) k.lstash_ptr b in
    (
      k',
      rw (e, record_level),
      record {
        base = ground (arith, at 0, o.some_level, o.base);
        some_level = omega arith;
        few = omega arith;
        increasing = λ p q h l. ground (arith, at p, at q, a p, o.increasing p q);
      },
      size,
      ground (arith, at k.lstash_ptr),
    )

search_between :
    (f : ℕ) (stash : ℕ → ℕ) (p b : ℕ)
    → stash 0 ≡ 0
    → stash 1 ≡ b
    → 0 < p
    → p < b
    → search_level (suc (suc (suc f))) stash p 0 2 0 ≡ absent 0
unfolding search_level
search_between f stash p b z t pos h = ground arith

-- With the base level 0 and one more level `b` in use, a level between the two goes to the front:
-- the levels are then `p, 0, b`, out of order. (The loop leaves `search_index` at the last index that
-- it has looked at, which is 0, and not at the place where the level belongs.)
pub record_level-misplaced :
    (k : Kernel) (i b : ℕ)
    → k.lstash_ptr ≡ 2
    → k.level_stash 0 ≡ 0
    → k.level_stash 1 ≡ b
    → 0 < k.prio_current i
    → k.prio_current i < b
    → (k' : Kernel) × (record_level k i ≡ some k')
      × (k'.lstash_ptr ≡ 3)
      × (k'.level_stash 0 ≡ k.prio_current i)
      × (k'.level_stash 1 ≡ 0)
      × (k'.level_stash 2 ≡ b)
unfolding record_level
record_level-misplaced k i b s z t pos h =
    let e : search_level search_fuel k.level_stash (k.prio_current i) 0 k.lstash_ptr 0 ≡ absent 0 =
      rw s (search_between 254 k.level_stash (k.prio_current i) b z t pos h) in
    (
      insert_level k (k.prio_current i) 0,
      rw (e, record_level),
      ground (arith, insert_level-size k (k.prio_current i) 0),
      ground (arith, insert_level_lem k (k.prio_current i) 0 0),
      ground (arith, insert_level_lem k (k.prio_current i) 0 1),
      ground (arith, insert_level_lem k (k.prio_current i) 0 2),
    )
