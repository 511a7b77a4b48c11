-- ===== src/Task/Kill/Unlink.antt =====
-- `svc_service_task_kill` (src/service/svr_task.c) takes the task out of the ring.
use skibios.Prelude.{
  ℕ, ◌/◌, ◌≤◌, ◌<◌, ◌≡◌, refl, sym, ap, subst, ◌∙◌, Bool, true, false, not, List, ◌∷◌, arith, ◌==◌,
  if◌then◌else◌, u8, sub16, ==_self, Bool-cases, inl, inr,
}
use skibios.Prelude.Loops.{for_range, for_range_inv, find_first_unique}
use skibios.Config.{Config, IsSupported}
use skibios.Error.{error_none}
use skibios.Hardware.{enable_scheduler}
use skibios.Kvar.{Kernel, task_state_idle}
use skibios.Ring.{Chain, Below, IsRing, SameRing, elem}
use skibios.Ring.Split.{IsRing-congr, Chain-above, elem-Below}
use skibios.Ring.Edit.{previous, previous_bounds, elem-previous, remove, unlinked, Chain-remove}
use skibios.Ring.Previous.{target-previous, target-before}
use skibios.Ring.Members.{elem-remove, Below-remove, Below-mono}
use skibios.Svc.{hand_over}
use skibios.Service.{Frame, returns}
use skibios.Task.Kill.{
  find_previous, unlink_task, detach_task, release_level, remove_level, recount, find_level,
  recount_task, svc_service_task_kill,
}

-- The search of the source finds the predecessor.
find_previous_lem :
    (n : ℕ) (k : Kernel) (r : List ℕ) (i : ℕ)
    → n ≤ 120
    → Chain k.jmp_list 0 r
    → Below n (0 ∷ r)
    → ((j : ℕ) → elem j (0 ∷ r) ≡ false → k.jmp_list j ≡ 0)
    → elem i r ≡ true
    → find_previous k i ≡ previous 0 r i
unfolding find_previous
find_previous_lem n k r i b c s u e =
    find_first_unique i 0 _ (previous 0 r i) (omega arith) (omega (arith, bounds.1))
      (rw (target-previous k.jmp_list 0 r i pos s' e c) (==_self i))
      (λ m l h. elim (Bool-cases (elem m (0 ∷ r))) [
        | inl live ↦ ground (arith, target-before k.jmp_list 0 r i m pos s' c live h, bounds)
        | inr dead ↦ ground (arith, u m dead, bounds)
      ])
  where
    s' : Below 128 (0 ∷ r)
    s' = Below-mono n 128 (0 ∷ r) (omega arith) s

    pos : 0 < i
    pos = ground (arith, Chain-above k.jmp_list 0 r i c)

    bounds : (0 ≤ previous 0 r i) × (previous 0 r i < i)
    bounds = previous_bounds k.jmp_list 0 r i pos c

pub find_previous_bound :
    (n : ℕ) (k : Kernel) (r : List ℕ) (i : ℕ)
    → n ≤ 120
    → IsRing n k r
    → elem i r ≡ true
    → find_previous k i < i
find_previous_bound n k r i b v e =
    let pos : 0 < i = ground (arith, Chain-above k.jmp_list 0 r i v.chain) in
    subst (λ p. p < i) (sym (find_previous_lem n k r i b v.chain v.below v.unlinked e))
      (previous_bounds k.jmp_list 0 r i pos v.chain).1

unlinked_fields :
    (k : Kernel) (i p : ℕ)
    → find_previous k i ≡ p
    → ((unlink_task k i).jmp_list ≡ unlinked k.jmp_list p i) × ((unlink_task k i).state ≡ k.state)
unfolding unlink_task
unlinked_fields k i p e = (ap (λ q. unlinked k.jmp_list q i) e, refl)

-- The ring without the task, if the task is the only one that has become idle.
unlink_task-IsRing :
    (n : ℕ) (k0 k : Kernel) (r : List ℕ) (i : ℕ)
    → n ≤ 120
    → IsRing n k0 r
    → k.jmp_list ≡ k0.jmp_list
    → ((j : ℕ) → k.state j ≡ (if j == i then task_state_idle else k0.state j))
    → elem i r ≡ true
    → IsRing n (unlink_task k i) (remove i r)
unlink_task-IsRing n k0 k r i b v e st m =
    let c : Chain k.jmp_list 0 r = subst (λ f. Chain f 0 r) (sym e) v.chain in
    let u : (j : ℕ) → elem j (0 ∷ r) ≡ false → k.jmp_list j ≡ 0 =
      λ j h. ap (λ f. f j) e ∙ v.unlinked j h in
    let f = unlinked_fields k i (previous 0 r i) (find_previous_lem n k r i b c v.below u m) in
    let pos : 0 < i = ground (arith, Chain-above k.jmp_list 0 r i c) in
    record {
      chain =
          subst (λ g. Chain g 0 (remove i r)) (sym f.0)
            (Chain-remove k.jmp_list 0 r i pos (Below-mono n 128 (0 ∷ r) (omega arith) v.below) m
              c);
      below = (v.below.0, Below-remove n i r v.below.1);
      live = λ j h.
          ground (arith, ap (λ g. g j) f.1, st j, v.live j h, elem-remove k.jmp_list 0 i r j c);
      unlinked = λ j h.
          ground
            (arith, ap (λ g. g j) f.0, u j, elem-remove k.jmp_list 0 i r j c, elem-previous 0 r i);
    }

find_level-frame : (i : ℕ) (m k : Kernel) → SameRing k m → SameRing k (find_level i m)
unfolding find_level
find_level-frame i m k h = ground arith

recount_task-frame : (i : ℕ) (m k : Kernel) → SameRing k m → SameRing k (recount_task i m)
unfolding recount_task
recount_task-frame i m k h = ground arith

-- What the other parts of the service do to the ring: the levels and counts leave it alone.
recount-frame : (c : Config) (k : Kernel) → SameRing k (recount c k)
unfolding recount
recount-frame c k = second
  where
    first :
        SameRing k
          (for_range c.max_task_count 0 find_level (record k { max_level = 0; alc = 0; hlc = 0 }))
    first =
        for_range_inv (SameRing k) find_level (λ i m h. find_level-frame i m k h) c.max_task_count 0
          _ (refl, refl, refl)

    second : SameRing k (recount c k)
    second =
        for_range_inv (SameRing k) recount_task (λ i m h. recount_task-frame i m k h)
          c.max_task_count 0 _ first

-- The kernel before `unlink_task`.
abbrev before_unlink : Config → Kernel → ℕ → Bool → Kernel
before_unlink c k i itself =
    let k1 = detach_task (release_level c k i) i in
    record k1 {
      self_kill = if itself then true else k1.self_kill;
      task_count = sub16 k1.task_count 1;
    }

before_unlink-frame :
    (c : Config) (k : Kernel) (i : ℕ) (itself : Bool)
    → ((before_unlink c k i itself).jmp_list ≡ k.jmp_list)
      × ((j : ℕ)
          → (before_unlink c k i itself).state j ≡ (if j == i then task_state_idle else k.state j))
unfolding release_level remove_level detach_task
before_unlink-frame c k i itself = (ground arith, λ j. ground arith)

pub task_kill-IsRing :
    (c : Config) (fr : Frame) (r : List ℕ)
    → IsSupported c
    → IsRing c.max_task_count fr.kernel r
    → elem (u8 (fr.arguments 0 / 65536)) r ≡ true
    → (fr' : Frame) × (svc_service_task_kill c fr ≡ returns fr')
      × (fr'.error ≡ error_none)
      × IsRing c.max_task_count fr'.kernel (remove (u8 (fr.arguments 0 / 65536)) r)
unfolding svc_service_task_kill enable_scheduler
task_kill-IsRing c fr r b v m =
    let i = u8 (fr.arguments 0 / 65536) in
    let itself = fr.arguments 1 == 1 in
    let k2 = before_unlink c fr.kernel i itself in
    let f = before_unlink-frame c fr.kernel i itself in
    let s = recount-frame c (unlink_task k2 i) in
    let w : IsRing c.max_task_count (unlink_task k2 i) (remove i r) =
      unlink_task-IsRing c.max_task_count fr.kernel k2 r i b.few_tasks v f.0 f.1 m in
    let l : i < c.max_task_count = elem-Below c.max_task_count i (0 ∷ r) v.below (ground arith) in
    (
      record fr {
        kernel = enable_scheduler (recount c (unlink_task k2 i));
        svc_num = if itself then hand_over else fr.svc_num;
        error = error_none;
      },
      ground (arith, l),
      refl,
      IsRing-congr c.max_task_count (unlink_task k2 i) _ (remove i r) s.0
          (λ j h. ap (λ g. not (g j == task_state_idle)) s.1) w,
    )
