-- ===== src/Task/Create/Link.antt =====
-- `svc_service_task_create` (src/service/svr_task.c) returns, and puts the task into the ring.
use skibios.Prelude.{
  ℕ, ◌-◌, ◌≤◌, ◌<◌, ◌≡◌, refl, sym, ap, subst, ◌⊎◌, inl, inr, true, false, some, List, ◌∷◌, arith,
  ◌==◌, if◌then◌else◌,
}
use skibios.Prelude.Loops.{for_range_inv, find_first_hit, find_first_before}
use skibios.Config.{Config}
use skibios.Hardware.{enable_scheduler}
use skibios.Kvar.{Kernel, task_state_idle, task_state_sleep}
use skibios.Ring.{Chain, IsRing, SameRing, elem}
use skibios.Ring.Edit.{previous, insert, linked, Chain-insert}
use skibios.Ring.Previous.{previous-pred}
use skibios.Ring.Members.{elem-insert, Below-insert, Below-mono}
use skibios.Task.Levels.{
  Probe, found, absent, endless, search_level, search_fuel, insert_level, record_level,
}
use skibios.Task.Levels.Search.{search_level-ends}
use skibios.Task.Stack.{arch_task_stack_init}
use skibios.Task.Create.{
  find_idle, link_task, raise_level, count_task, start_if_second, finish_create,
}

Probe-cases : (x : Probe) → (x ≡ found) ⊎ (((s : ℕ) × (x ≡ absent s)) ⊎ (x ≡ endless))
Probe-cases found = inl refl
Probe-cases (absent s) = inr (inl (s, refl))
Probe-cases endless = inr (inr refl)

-- The level of the new task is recorded, in one way or the other, and the ring is left alone.
pub record_level-total :
    (k : Kernel) (i : ℕ)
    → k.level_stash 0 ≡ 0
    → k.lstash_ptr ≤ 120
    → (k' : Kernel) × (record_level k i ≡ some k') × SameRing k k'
unfolding record_level insert_level
record_level-total k i z b =
    elim (Probe-cases
      (search_level search_fuel k.level_stash (k.prio_current i) 0 k.lstash_ptr 0)) [
        | inl e ↦ (k, rw (e, record_level), (refl, refl, refl))
        | inr (inl (s, e)) ↦
            (insert_level k (k.prio_current i) s, rw (e, record_level), (refl, refl, refl))
        | inr (inr e) ↦ absurd (
            search_level-ends search_fuel k.level_stash (k.prio_current i) 0 k.lstash_ptr 0 z
              (omega arith) (omega arith) (omega arith) e)
      ]

raise_level-frame : (j : ℕ) (m k : Kernel) → SameRing k m → SameRing k (raise_level j m)
unfolding raise_level enable_scheduler
raise_level-frame j m k h = ground arith

count_task-frame : (i : ℕ) (m k : Kernel) → SameRing k m → SameRing k (count_task m i)
unfolding count_task
count_task-frame i m k h = ground arith

start_if_second-frame : (m k : Kernel) → SameRing k m → SameRing k (start_if_second m)
unfolding start_if_second enable_scheduler
start_if_second-frame m k h = ground arith

pub finish_create-frame :
    (c : Config) (k : Kernel) (i arg : ℕ) → SameRing k (finish_create c k i arg)
unfolding finish_create arch_task_stack_init
finish_create-frame c k i arg = start_if_second-frame _ k (
    count_task-frame i _ k (
      for_range_inv (SameRing k) raise_level (λ j m h. raise_level-frame j m k h) c.max_task_count 0
        _ (refl, refl, refl)))

-- The first idle slot is free, and all slots below it are live.
pub find_idle_lem :
    (c : Config) (k : Kernel) (r : List ℕ)
    → IsRing c.max_task_count k r
    → find_idle c k < c.max_task_count
    → (elem (find_idle c k) (0 ∷ r) ≡ false)
      × (0 < find_idle c k)
      × (elem (find_idle c k - 1) (0 ∷ r) ≡ true)
unfolding find_idle
find_idle_lem c k r v h =
    let i = find_idle c k in
    let test = λ (j : ℕ). k.state j == task_state_idle in
    let free : elem i (0 ∷ r) ≡ false =
      ground (arith, v.live i h, find_first_hit c.max_task_count 0 test) in
    let pos : 0 < i = ground arith in
    let live : elem (i - 1) (0 ∷ r) ≡ true =
      ground (arith, v.live (i - 1), find_first_before c.max_task_count 0 test (i - 1)) in
    (free, pos, live)

pub link_task-jmp_list :
    (k : Kernel) (i : ℕ)
    → 0 < i
    → ((link_task k i).jmp_list ≡ linked k.jmp_list (i - 1) i) × ((link_task k i).state ≡ k.state)
unfolding link_task
link_task-jmp_list k i h = ground arith

-- The new ring, if `m` differs from `k` by the links of the new task and its state.
pub insert-IsRing :
    (n : ℕ) (k m : Kernel) (r : List ℕ) (i : ℕ)
    → n ≤ 120
    → IsRing n k r
    → i < n
    → 0 < i
    → elem i (0 ∷ r) ≡ false
    → elem (i - 1) (0 ∷ r) ≡ true
    → m.jmp_list ≡ linked k.jmp_list (i - 1) i
    → ((j : ℕ) → m.state j ≡ (if j == i then task_state_sleep else k.state j))
    → IsRing n m (insert i r)
insert-IsRing n k m r i b v h pos free live e st =
    let pred : previous 0 r i ≡ i - 1 = previous-pred k.jmp_list 0 r i pos v.chain live in
    record {
      chain =
          subst (λ g. Chain g 0 (insert i r)) (sym e)
            (subst (λ p. Chain (linked k.jmp_list p i) 0 (insert i r)) pred
              (Chain-insert k.jmp_list 0 r i pos (omega arith)
                (Below-mono n 128 (0 ∷ r) (omega arith) v.below) (ground arith) v.chain));
      below = (v.below.0, Below-insert n i r h v.below.1);
      live = λ j l. ground (arith, st j, v.live j l, elem-insert i r j);
      unlinked = λ j u. ground (arith, ap (λ g. g j) e, v.unlinked j, elem-insert i r j);
    }
