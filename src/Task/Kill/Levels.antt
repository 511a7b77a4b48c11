-- ===== src/Task/Kill/Levels.antt =====
-- The level of a killed task leaves `level_stash` (`svc_service_task_kill` of
-- src/service/svr_task.c).
use skibios.Prelude.{
  ℕ, zero, suc, ◌+◌, ◌≤◌, ◌<◌, ◌≡◌, ◌≢◌, true, false, arith, ltb, leb, ◌&&◌, if◌then◌else◌, dec_lt,
}
use skibios.Prelude.Loops.{for_range}
use skibios.Kvar.{Kernel}
use skibios.Task.Kill.{Removal, remove_step, remove_level}
use skibios.Task.Levels.Insert.{IsOrdered}

-- Once the level is found, every place takes the value of the next one.
shift_lem :
    (n i p j : ℕ) (s : Removal)
    → s.found ≡ true
    → (for_range n i (remove_step p) s).stash j
      ≡ (if leb i j && ltb j (i + n) then s.stash (j + 1) else s.stash j)
unfolding for_range remove_step
shift_lem zero i p j s f = ground arith
shift_lem (suc n) i p j s f =
    ground (arith, shift_lem n (i + 1) p j (remove_step p i s) (ground arith))

-- Before that, nothing moves.
remove_lem :
    (n i p q j : ℕ) (s : Removal)
    → s.found ≡ false
    → i ≤ q
    → q < i + n
    → s.stash q ≡ p
    → ((m : ℕ) → m < q → s.stash m ≢ p)
    → (for_range n i (remove_step p) s).stash j
      ≡ (if leb q j && ltb j (i + n) then s.stash (j + 1) else s.stash j)
unfolding for_range remove_step
remove_lem zero i p q j s f l h e d = absurd (omega arith)
remove_lem (suc n) i p q j s f l h e d = elim (dec_lt i q) [
  | yes u ↦ ground (arith, d i u, remove_lem n (i + 1) p q j s f (omega arith) (omega arith) e d)
  | no u ↦
      let here : i ≡ q = omega arith in
      ground (arith, shift_lem n (i + 1) p j (remove_step p i s) (ground arith))
]

-- With levels in increasing order, the removal of a level above the base level keeps the levels below,
-- moves those above down by one place, makes their number one less, and keeps the order.
pub remove_level-IsOrdered :
    (k : Kernel) (i q : ℕ)
    → IsOrdered k
    → 0 < q
    → q < k.lstash_ptr
    → k.level_stash q ≡ k.prio_current i
    → IsOrdered (remove_level k i)
      × ((remove_level k i).lstash_ptr + 1 ≡ k.lstash_ptr)
      × ((j : ℕ)
          → j + 1 < k.lstash_ptr
          → (remove_level k i).level_stash j
            ≡ (if ltb j q then k.level_stash j else k.level_stash (j + 1)))
unfolding remove_level
remove_level-IsOrdered k i q o pos l e =
    let at = λ (j : ℕ).
      remove_lem k.lstash_ptr 0 (k.prio_current i) q j
        (record { found = false; stash = k.level_stash }) (ground arith) (omega arith) (omega arith)
        e (λ m h. ground (arith, o.increasing m q h l)) in
    (
      record {
        base = ground (arith, at 0, o.base);
        some_level = ground (arith, o.few);
        few = ground (arith, o.few);
        increasing = λ a b h m. ground (
          arith,
          at a,
          at b,
          o.increasing a b,
          o.increasing a (b + 1),
          o.increasing (a + 1) (b + 1),
          o.few,
        );
      },
      ground (arith, o.few),
      λ j h. ground (arith, at j),
    )
