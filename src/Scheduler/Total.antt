-- ===== src/Scheduler/Total.antt =====
-- `scheduler` (src/kernel.c) as a whole, where dynamic level switching is on.
use skibios.Prelude.{
  ℕ, suc, ◌-◌, ◌≤◌, ◌<◌, ◌≡◌, ◌≢◌, refl, sym, ap, subst, ◌∙◌, ◌⊎◌, inl, inr, true, some, List, ◌∷◌,
  arith, sub8, dec_lt,
}
use skibios.Config.{Config, IsSupported}
use skibios.Kvar.{Kernel, task_state_sleep, task_state_active}
use skibios.Ring.{elem}
use skibios.Ring.Walk.{Walk, Exact, Chain-Exact}
use skibios.Ring.Split.{others, Tour, IsRing-Tour, elem-Below, elem_tour}
use skibios.Scheduler.{Scan, scan, scan_start, scan_fuel, dispatch_next, select_next, scheduler}
use skibios.Scheduler.Steady.{
  IsStash, IsStash-congr, at_sweep, IsSteady, IsChoice, at_sweep-jmp_list, at_sweep-IsRing,
  KeepsHead, at_sweep-KeepsHead, dispatch_next-fields, dispatch_next-normal, at_sweep-normal,
}
use skibios.Scheduler.Sweep.{woken, Keeps, sweep-woken}
use skibios.Scheduler.Choice.{
  IsReady, choose, choose-IsReady, choose-total, choose-max, scan-choose,
}

-- The kernel after the sweep, as the search finds it.
record IsSwept (n : ℕ) (k : Kernel) (r : List ℕ) (x : ℕ) : Type 0 where
  tour : Tour n k r x
  exact : (j : ℕ) → elem j (0 ∷ r) ≡ true → Exact k.jmp_list j
  member : elem x (0 ∷ r) ≡ true
  current : k.current_task ≡ x
  next : k.next_task ≡ x
  dws : k.enable_dws ≡ true
  bottom : k.level_stash 0 ≡ 0
  base : IsReady k 0 0
  two : 2 ≤ k.lstash_ptr
  fits : k.lstash_ptr ≤ n

choose-start :
    (n : ℕ) (k : Kernel) (r : List ℕ) (x : ℕ)
    → IsSwept n k r x
    → (s : Scan) × (choose k x (others x (0 ∷ r)) (k.lstash_ptr - 1) k.max_level ≡ some s)
choose-start n k r x w =
    let e : k.lstash_ptr - 1 ≡ suc (k.lstash_ptr - 2) = omega (arith, w.two) in
    rw e (
      choose-total k x (others x (0 ∷ r)) w.bottom w.base (elem_tour x (0 ∷ r) 0 w.member ∙ refl)
        (k.lstash_ptr - 2) k.max_level)

scan-start :
    (c : Config) (k : Kernel) (r : List ℕ) (x : ℕ) (s : Scan)
    → c.max_task_count ≤ 120
    → IsSwept c.max_task_count k r x
    → choose k x (others x (0 ∷ r)) (k.lstash_ptr - 1) k.max_level ≡ some s
    → scan (scan_fuel c) k (scan_start k) ≡ some s
scan-start c k r x s b w h =
    subst (λ t. scan (scan_fuel c) k t ≡ some s) (sym start)
      (scan-choose (k.lstash_ptr - 1) (scan_fuel c) k x k.max_level (others x (0 ∷ r)) s w.current
        w.dws (λ j e. w.exact j (sym (elem_tour x (0 ∷ r) j w.member) ∙ e)) w.tour.walk w.tour.once
        (omega (arith, w.fits)) (grind (arith, w.fits, w.two, w.tour.short)) h)
  where
    lptr : sub8 k.lstash_ptr 1 ≡ k.lstash_ptr - 1
    lptr = omega (arith, w.fits, w.two)

    start : scan_start k ≡ record { next = x; level = k.max_level; lptr = k.lstash_ptr - 1 }
    start = λ i. record { next = w.next i; level = k.max_level; lptr = lptr i }

select_next_lem :
    (c : Config) (k : Kernel) (s : Scan)
    → scan (scan_fuel c) k (scan_start k) ≡ some s
    → select_next c k ≡ some (dispatch_next k s)
unfolding select_next
select_next_lem c k s h = rw (h, select_next)

swept :
    (n : ℕ) (k : Kernel) (r : List ℕ) (k2 : Kernel)
    → n ≤ 120
    → 0 < n
    → IsSteady n k r
    → Keeps (at_sweep k) k2
    → ((i : ℕ) → i < n → k2.state i ≡ woken (at_sweep k) i)
    → IsSwept n k2 r k.current_task
swept n k r k2 b pos v p st =
    let a : KeepsHead k (at_sweep k) = at_sweep-KeepsHead k in
    let j : k2.jmp_list ≡ k.jmp_list = p.jmp_list ∙ at_sweep-jmp_list n k r in
    let t : Tour n k r k.current_task = IsRing-Tour n k r k.current_task b v.ring v.alive in
    record {
      tour = record {
        walk =
            subst
              (λ f.
                Walk f k.current_task (k.current_task ∷ others k.current_task (0 ∷ r))
                  k.current_task)
              (sym j) t.walk;
        once = t.once;
        short = t.short;
      };
      exact = λ i e.
          subst (λ f. Exact f i) (sym j)
            (Chain-Exact n k.jmp_list 0 r i b v.ring.below v.ring.chain e);
      member = v.alive;
      current = p.current_task ∙ a.current_task;
      next = p.next_task ∙ a.next_task ∙ v.switched;
      dws = p.enable_dws ∙ a.enable_dws ∙ v.dws;
      bottom = ap (λ f. f 0) (p.level_stash ∙ a.level_stash) ∙ v.stash.base;
      base = (
        st 0 pos ∙ woken-sleep (at_sweep k) v.base_sleeps,
        ap (λ f. f 0) (p.prio_current ∙ a.prio_current) ∙ v.base_level,
      );
      two = rw (p.lstash_ptr ∙ a.lstash_ptr) v.stash.two;
      fits = rw (p.lstash_ptr ∙ a.lstash_ptr) v.stash.fits;
    }
  where
    woken-sleep : (m : Kernel) → m.state 0 ≡ task_state_sleep → woken m 0 ≡ task_state_sleep
    woken-sleep m e = ground arith

-- No sleeping task of the ring, but for the current one, has a level above the chosen task's.
choose-highest :
    (n : ℕ) (k : Kernel) (r : List ℕ) (x y : ℕ) (s : Scan)
    → IsStash n k r
    → elem x (0 ∷ r) ≡ true
    → elem y (0 ∷ r) ≡ true
    → y ≢ x
    → k.state y ≡ task_state_sleep
    → choose k x (others x (0 ∷ r)) (k.lstash_ptr - 1) k.max_level ≡ some s
    → k.prio_current y ≤ k.prio_current s.next
choose-highest n k r x y s v ex ey ne w h =
    rw (choose-IsReady k x (others x (0 ∷ r)) (k.lstash_ptr - 1) k.max_level s h).1.1 (
      choose-max k x (others x (0 ∷ r)) (k.lstash_ptr - 1) k.max_level y s
        (ground (arith, elem_tour x (0 ∷ r) y ex)) w level (λ p q u l. v.sorted p q u (omega arith))
        (λ q l. rw (← v.top) (v.sorted q (k.lstash_ptr - 1) (omega arith) (omega (arith, v.two))))
        h)
  where
    level :
        (k.prio_current y ≡ k.max_level)
        ⊎ ((q : ℕ) × (q < k.lstash_ptr - 1) × (k.level_stash q ≡ k.prio_current y))
    level =
        let (q, l, e) = v.covers y ey in
        elim (dec_lt q (k.lstash_ptr - 1)) [
          | yes u ↦ inr (q, u, e)
          | no u ↦
              let last : q ≡ k.lstash_ptr - 1 = omega arith in
              inl (sym e ∙ ap k.level_stash last ∙ v.top)
        ]

-- What the search has found, in terms of the kernel before the scheduler.
choice :
    (n : ℕ) (k : Kernel) (r : List ℕ) (k2 : Kernel) (s : Scan)
    → IsSteady n k r
    → Keeps (at_sweep k) k2
    → ((i : ℕ) → i < n → k2.state i ≡ woken (at_sweep k) i)
    → choose k2 k.current_task (others k.current_task (0 ∷ r)) (k2.lstash_ptr - 1) k2.max_level
      ≡ some s
    → IsChoice n k r (dispatch_next k2 s)
choice n k r k2 s v p st h =
    let x = k.current_task in
    let a : KeepsHead k (at_sweep k) = at_sweep-KeepsHead k in
    let d = dispatch_next-fields k2 s in
    let prio : k2.prio_current ≡ k.prio_current = p.prio_current ∙ a.prio_current in
    let stash : k2.level_stash ≡ k.level_stash = p.level_stash ∙ a.level_stash in
    let size : k2.lstash_ptr ≡ k.lstash_ptr = p.lstash_ptr ∙ a.lstash_ptr in
    let top : k2.max_level ≡ k.max_level = p.max_level ∙ a.max_level in
    let found = choose-IsReady k2 x (others x (0 ∷ r)) (k2.lstash_ptr - 1) k2.max_level s h in
    let member : elem s.next (0 ∷ r) ≡ true = sym (elem_tour x (0 ∷ r) s.next v.alive) ∙ found.0 in
    let inside = elem-Below n s.next (0 ∷ r) v.ring.below member in
    record {
      in_ring = subst (λ j. elem j (0 ∷ r) ≡ true) (sym d.0) member;
      was_ready =
          subst (λ j. woken (at_sweep k) j ≡ task_state_sleep) (sym d.0)
            (sym (st s.next inside) ∙ found.1.0);
      active =
          subst (λ j. (dispatch_next k2 s).state j ≡ task_state_active) (sym d.0)
            (ground (arith, d.1 s.next));
      normal = dispatch_next-normal k2 s ∙ p.normal_schedule ∙ at_sweep-normal k;
      rest = λ i hi ne. ground (arith, d.0, d.1 i, st i hi);
      highest = λ y e ne w.
          subst (λ j. k.prio_current y ≤ k.prio_current j) (sym d.0)
            (subst (λ f. f y ≤ f s.next) prio
              (choose-highest n k2 r x y s (IsStash-congr n k k2 r stash size top prio v.stash)
                v.alive e ne (st y (elem-Below n y (0 ∷ r) v.ring.below e) ∙ w) h));
    }

-- In a steady state the scheduler returns: the sweep ends within one round for each task slot and the
-- search within one tour for each level. The next task is a live one that was asleep after the
-- sweep, and no sleeping task other than the current one had a higher priority. It becomes active,
-- and every other task is in the state in which the sweep left it.
pub scheduler-IsChoice :
    (c : Config) (k : Kernel) (r : List ℕ)
    → IsSupported c
    → IsSteady c.max_task_count k r
    → (k' : Kernel) × (scheduler c k ≡ some k') × IsChoice c.max_task_count k r k'
unfolding scheduler
scheduler-IsChoice c k r b v =
    let n = c.max_task_count in
    let m = at_sweep k in
    let a : KeepsHead k m = at_sweep-KeepsHead k in
    let here : elem m.next_task (0 ∷ r) ≡ true =
      subst (λ j. elem j (0 ∷ r) ≡ true) (sym (a.next_task ∙ v.switched)) v.alive in
    let (k2, e, p, st) =
      sweep-woken n m r b.few_tasks (at_sweep-IsRing n k r v.ring v.alive) here in
    let w : IsSwept n k2 r k.current_task = swept n k r k2 b.few_tasks b.some_task v p st in
    let (s, h) = choose-start n k2 r k.current_task w in
    (
      dispatch_next k2 s,
      rw (e, scheduler)
          (select_next_lem c k2 s (scan-start c k2 r k.current_task s b.few_tasks w h)),
      choice n k r k2 s v p st h,
    )
