-- ===== src/Run/Tick.antt =====
-- The timer interrupt (`scheduler` of src/kernel.c and the context switch) in any coherent state.
use skibios.Prelude.{
  ℕ, zero, suc, ◌+◌, ◌≤◌, ◌<◌, ◌≡◌, ◌≢◌, refl, ap, subst, ◌∙◌, inl, inr, Bool-cases, true, false,
  some, Option-cases, List, [], ◌∷◌, arith, ◌==◌, u8,
}
use skibios.Config.{Config, IsSupported}
use skibios.Kvar.{Kernel, task_state_active, task_state_sleep}
use skibios.Hardware.{disable_scheduler}
use skibios.Ring.{Chain, Below, IsRing, elem, is_live}
use skibios.Ring.Walk.{Chain-Exact}
use skibios.Ring.Split.{IsRing-congr, elem-Below}
use skibios.Scheduler.Steady.{at_sweep}
use skibios.Scheduler.{
  check_hibernate, sweep, Scan, scan_step, is_ready, scan, scan_start, scan_fuel, retire_current,
  dispatch_next, select_next, scheduler, context_switch, timer_routine,
}
use skibios.Run.Quiet.{IsQuiet}
use skibios.Run.Calls.{IsQuiet-trans}
use skibios.Run.State.{IsRegistered, IsRegistered-congr, IsCoherent}

check-IsQuiet : (k : Kernel) (i : ℕ) → k.self_kill ≡ false → IsQuiet k (check_hibernate k i)
unfolding check_hibernate
check-IsQuiet k i h = ground arith

sweep-IsQuiet :
    (fuel : ℕ) (k k' : Kernel) (i : ℕ)
    → k.self_kill ≡ false
    → sweep fuel k i ≡ some k'
    → IsQuiet k k'
unfolding sweep
sweep-IsQuiet zero k k' i h e = absurd (ground arith)
sweep-IsQuiet (suc fuel) k k' i h e =
    let m = check_hibernate k i in
    let q = check-IsQuiet k i h in
    elim (Bool-cases (u8 (i + k.jmp_list i) == k.next_task)) [
      | inl s ↦ let same : m ≡ k' = ground arith in subst (IsQuiet k) same q
      | inr s ↦
          IsQuiet-trans k m k' q
            (sweep-IsQuiet fuel m k' (u8 (i + k.jmp_list i)) q.self_kill (ground arith))
    ]

-- A step from a task of the ring leads to a task of the ring.
Chain-target :
    (n : ℕ) (jmp : ℕ → ℕ) (x : ℕ) (r : List ℕ) (i : ℕ)
    → n ≤ 120
    → Below n (x ∷ r)
    → Chain jmp x r
    → elem i (x ∷ r) ≡ true
    → elem (u8 (i + jmp i)) (0 ∷ r) ≡ true
Chain-target n jmp x [] i b s c h = ground arith
Chain-target n jmp x (y ∷ r) i b s c h = elim (Bool-cases (i == x)) [
  | inl e ↦ ground arith
  | inr e ↦ ground (arith, Chain-target n jmp y r i b s.1 c.2)
]

step-elem :
    (n : ℕ) (k : Kernel) (r : List ℕ) (s : Scan)
    → n ≤ 120
    → IsRing n k r
    → elem s.next (0 ∷ r) ≡ true
    → elem (scan_step k s).next (0 ∷ r) ≡ true
unfolding scan_step
step-elem n k r s b v h = ground (
  arith,
  Chain-Exact n k.jmp_list 0 r s.next b v.below v.chain h,
  Chain-target n k.jmp_list 0 r s.next b v.below v.chain h,
)

scan-elem :
    (n fuel : ℕ) (k : Kernel) (r : List ℕ) (s s' : Scan)
    → n ≤ 120
    → IsRing n k r
    → elem s.next (0 ∷ r) ≡ true
    → scan fuel k s ≡ some s'
    → (elem s'.next (0 ∷ r) ≡ true) × (k.state s'.next ≡ task_state_sleep)
unfolding scan
scan-elem n zero k r s s' b v h e = absurd (ground arith)
scan-elem n (suc fuel) k r s s' b v h e =
    let s1 = scan_step k s in
    let inside : elem s1.next (0 ∷ r) ≡ true = step-elem n k r s b v h in
    elim (Bool-cases (is_ready k s1)) [
      | inl t ↦
          let same : s1 ≡ s' = ground arith in
          subst (λ x. (elem x.next (0 ∷ r) ≡ true) × (k.state x.next ≡ task_state_sleep)) same
            (inside, ground arith)
      | inr t ↦ scan-elem n fuel k r s1 s' b v inside (ground arith)
    ]

-- The kernel between the head of the scheduler and its choice: no task is active.
record IsHalted (n : ℕ) (k : Kernel) (r : List ℕ) : Type 0 where
  ring : IsRing n k r
  registered : IsRegistered n k r
  idle : (i : ℕ) → i < n → k.state i ≢ task_state_active
  next : elem k.next_task (0 ∷ r) ≡ true
  self_kill : k.self_kill ≡ false
  normal : k.normal_schedule ≡ true

at_sweep-live :
    (n : ℕ) (k : Kernel) (r : List ℕ) (i : ℕ)
    → i < n
    → IsCoherent n k r
    → is_live (at_sweep k) i ≡ is_live k i
unfolding retire_current disable_scheduler
at_sweep-live n k r i h v =
    let bound = elem-Below n k.next_task (0 ∷ r) v.ring.below v.next in
    ground (arith, v.switched, v.next, v.ring.live k.next_task bound)

at_sweep-IsHalted : (n : ℕ) (k : Kernel) (r : List ℕ) → IsCoherent n k r → IsHalted n (at_sweep k) r
unfolding retire_current disable_scheduler
at_sweep-IsHalted n k r v = record {
  ring = IsRing-congr n k (at_sweep k) r (ground arith) (λ i h. at_sweep-live n k r i h v) v.ring;
  registered =
      IsRegistered-congr n k (at_sweep k) r (ground arith) (ground arith) (ground arith)
        v.registered;
  idle = λ i l e. ground (arith, v.alone i l);
  next = ground (arith, v.next);
  self_kill = ground (arith, v.self_kill);
  normal = ground arith;
}

IsQuiet-IsHalted :
    (n : ℕ) (k k' : Kernel) (r : List ℕ)
    → k'.normal_schedule ≡ k.normal_schedule
    → IsQuiet k k'
    → IsHalted n k r
    → IsHalted n k' r
IsQuiet-IsHalted n k k' r e q v = record {
  ring = IsRing-congr n k k' r q.jmp_list (λ i h. q.live i) v.ring;
  registered = IsRegistered-congr n k k' r q.task_obj q.task_id q.task_count v.registered;
  idle = λ i l h. v.idle i l (q.active i h);
  next = ap (λ x. elem x (0 ∷ r)) q.next_task ∙ v.next;
  self_kill = q.self_kill;
  normal = e ∙ v.normal;
}

-- The choice becomes the one active task, and after the context switch the current one.
dispatch-IsCoherent :
    (n : ℕ) (k : Kernel) (r : List ℕ) (s : Scan)
    → elem s.next (0 ∷ r) ≡ true
    → k.state s.next ≡ task_state_sleep
    → IsHalted n k r
    → IsCoherent n (context_switch (dispatch_next k s)) r
unfolding context_switch dispatch_next
dispatch-IsCoherent n k r s h t v = record {
  ring = IsRing-congr n k _ r (ground arith) (λ i l. ground arith) v.ring;
  registered = IsRegistered-congr n k _ r (ground arith) (ground arith) (ground arith) v.registered;
  next = ground arith;
  switched = λ e. refl;
  self_kill = ground (arith, v.self_kill);
  alone = λ i l e. ground (arith, v.idle i l, v.normal);
}

sweep-normal :
    (fuel : ℕ) (k k' : Kernel) (i : ℕ)
    → sweep fuel k i ≡ some k'
    → k'.normal_schedule ≡ k.normal_schedule
unfolding sweep check_hibernate
sweep-normal zero k k' i e = absurd (ground arith)
sweep-normal (suc fuel) k k' i e =
    ground (arith, sweep-normal fuel (check_hibernate k i) k' (u8 (i + k.jmp_list i)))

scheduler-IsCoherent :
    (c : Config) (k k' : Kernel) (r : List ℕ)
    → IsSupported c
    → IsCoherent c.max_task_count k r
    → scheduler c k ≡ some k'
    → IsCoherent c.max_task_count (context_switch k') r
unfolding scheduler select_next
scheduler-IsCoherent c k k' r b v e =
    let n = c.max_task_count in
    let k1 = at_sweep k in
    let a = at_sweep-IsHalted n k r v in
    elim (Option-cases (sweep n k1 (u8 k1.next_task))) [
      | inl f ↦ absurd (ground arith)
      | inr (k2, f) ↦
          let q = sweep-IsQuiet n k1 k2 (u8 k1.next_task) a.self_kill f in
          let w = IsQuiet-IsHalted n k1 k2 r (sweep-normal n k1 k2 (u8 k1.next_task) f) q a in
          elim (Option-cases (scan (scan_fuel c) k2 (scan_start k2))) [
            | inl g ↦ absurd (ground arith)
            | inr (s, g) ↦
                let (inside, asleep) =
                  scan-elem n (scan_fuel c) k2 r (scan_start k2) s b.few_tasks w.ring w.next g in
                let same : dispatch_next k2 s ≡ k' = ground arith in
                subst (λ x. IsCoherent n (context_switch x) r) same
                  (dispatch-IsCoherent n k2 r s inside asleep w)
          ]
    ]

-- In any coherent state, a timer interrupt that ends leaves a coherent one.
pub timer_routine-IsCoherent :
    (c : Config) (k k' : Kernel) (r : List ℕ)
    → IsSupported c
    → IsCoherent c.max_task_count k r
    → timer_routine c k ≡ some k'
    → IsCoherent c.max_task_count k' r
unfolding timer_routine
timer_routine-IsCoherent c k k' r b v e = elim (Bool-cases k.first_start) [
  | inr f ↦ let same : k ≡ k' = ground arith in subst (λ x. IsCoherent c.max_task_count x r) same v
  | inl f ↦ elim (Option-cases (scheduler c k)) [
    | inl g ↦ absurd (ground arith)
    | inr (m, g) ↦
        let same : context_switch m ≡ k' = ground arith in
        subst (λ x. IsCoherent c.max_task_count x r) same (scheduler-IsCoherent c k m r b v g)
  ]
]
