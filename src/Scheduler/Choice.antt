-- ===== src/Scheduler/Choice.antt =====
-- The choice that the scheduler (src/kernel.c) makes while dynamic level switching is on
-- (`enable_dws`): level by level from the highest down, round robin within a level.
use skibios.Prelude.{
  ℕ, zero, suc, ◌-◌, ◌*◌, ◌≤◌, ◌<◌, ◌≡◌, sym, ◌⊎◌, Bool, true, false, ◌&&◌, Option, none, some,
  List, [], ◌∷◌, arith, ◌==◌, if◌then◌else◌, length, sub8, Bool-cases, Option-cases, inl, inr,
  dec_lt,
}
use skibios.Kvar.{Kernel, task_state_sleep}
use skibios.Ring.{elem}
use skibios.Ring.Walk.{Walk, Exact}
use skibios.Scheduler.{Scan, scan}
use skibios.Scheduler.Rounds.{first_ready, scan-tour}

abbrev pub IsReady : Kernel → ℕ → ℕ → Type 0
IsReady k level i = (k.state i ≡ task_state_sleep) × (k.prio_current i ≡ level)

abbrev current_ready : Kernel → ℕ → ℕ → Bool
current_ready k x p = (k.state x == task_state_sleep) && (k.prio_current x == k.level_stash p)

-- A specification of the search: `x` is the current task and `o` are the others, in the order of
-- the ring. The others are tried at `level`; then the current task and the others at the levels of
-- `level_stash` below index `lptr`, downwards.
unfoldable pub choose : Kernel → ℕ → List ℕ → ℕ → ℕ → Option Scan
choose k x o zero level = elim (first_ready k level o) [
  | some y ↦ some (record { next = y; level = level; lptr = 0 })
  | none ↦ none
]
choose k x o (suc p) level =
    let lower = choose k x o p (k.level_stash p) in
    elim (first_ready k level o) [
      | some y ↦ some (record { next = y; level = level; lptr = suc p })
      | none ↦
          if current_ready k x p
          then some (record { next = x; level = k.level_stash p; lptr = p })
          else lower
    ]

first_ready-IsReady :
    (k : Kernel) (level : ℕ) (l : List ℕ) (y : ℕ)
    → first_ready k level l ≡ some y
    → (elem y l ≡ true) × IsReady k level y
unfolding first_ready
first_ready-IsReady k level [] y h = absurd (cc)
first_ready-IsReady k level (i ∷ l) y h = ground (arith, first_ready-IsReady k level l y)

first_ready-none :
    (k : Kernel) (level : ℕ) (l : List ℕ) (y : ℕ)
    → first_ready k level l ≡ none
    → elem y l ≡ true
    → ¬ IsReady k level y
unfolding first_ready
first_ready-none k level [] y h e r = ground arith
first_ready-none k level (i ∷ l) y h e r = ground (arith, first_ready-none k level l y)

-- What is chosen sleeps at the level at which the search stopped.
pub choose-IsReady :
    (k : Kernel) (x : ℕ) (o : List ℕ) (lptr level : ℕ) (s : Scan)
    → choose k x o lptr level ≡ some s
    → (elem s.next (x ∷ o) ≡ true) × IsReady k s.level s.next
unfolding choose
choose-IsReady k x o zero level s h = elim (Option-cases (first_ready k level o)) [
  | inl e ↦ ground arith
  | inr (y, e) ↦ ground (arith, first_ready-IsReady k level o y e)
]
choose-IsReady k x o (suc p) level s h = elim (Option-cases (first_ready k level o)) [
  | inl e ↦ ground (arith, choose-IsReady k x o p (k.level_stash p) s)
  | inr (y, e) ↦ ground (arith, first_ready-IsReady k level o y e)
]

-- The base task ends the search: its level is the lowest, and it sleeps.
module _ (k : Kernel) (x : ℕ) (o : List ℕ) (z : k.level_stash 0 ≡ 0) (b : IsReady k 0 0)
    (e : elem 0 (x ∷ o) ≡ true) where
  -- At the lowest level the base task is found, among the others or as the current task.
  choose-bottom :
      current_ready k x 0 ≡ false → (s : Scan) × (choose k x o 0 (k.level_stash 0) ≡ some s)
  unfolding choose
  choose-bottom g = elim (Option-cases (first_ready k (k.level_stash 0) o)) [
    | inl n ↦ absurd (ground (arith, first_ready-none k (k.level_stash 0) o 0 n))
    | inr (y, n) ↦ (record { next = y; level = k.level_stash 0; lptr = 0 }, ground arith)
  ]

  choose-step :
      (p level : ℕ)
      → (current_ready k x p ≡ false → (s : Scan) × (choose k x o p (k.level_stash p) ≡ some s))
      → (s : Scan) × (choose k x o (suc p) level ≡ some s)
  unfolding choose
  choose-step p level lower = elim (Option-cases (first_ready k level o)) [
    | inr (y, f) ↦ (record { next = y; level = level; lptr = suc p }, ground arith)
    | inl f ↦ elim (Bool-cases (current_ready k x p)) [
      | inl g ↦ (record { next = x; level = k.level_stash p; lptr = p }, ground arith)
      | inr g ↦ let (s, h) = lower g in (s, ground arith)
    ]
  ]

  -- The base task, asleep at the lowest level, ends every search.
  pub choose-total : (p level : ℕ) → (s : Scan) × (choose k x o (suc p) level ≡ some s)
  choose-total zero level = choose-step 0 level choose-bottom
  choose-total (suc q) level =
      choose-step (suc q) level (λ _. choose-total q (k.level_stash (suc q)))

level_below :
    (k : Kernel) (p y : ℕ)
    → ((q : ℕ) × (q < suc p) × (k.level_stash q ≡ k.prio_current y))
    → ((k.prio_current y ≡ k.level_stash p)
        ⊎ ((q : ℕ) × (q < p) × (k.level_stash q ≡ k.prio_current y)))
level_below k p y (q, l, r) = elim (dec_lt q p) [
  | yes u ↦ inr (q, u, r)
  | no u ↦ let same : q ≡ p = omega arith in inl (rw same at (sym r))
]

-- No sleeping task among the others is above the level at which the search stopped.
pub choose-max :
    (k : Kernel) (x : ℕ) (o : List ℕ) (lptr level y : ℕ) (s : Scan)
    → elem y o ≡ true
    → k.state y ≡ task_state_sleep
    → ((k.prio_current y ≡ level) ⊎ ((q : ℕ) × (q < lptr) × (k.level_stash q ≡ k.prio_current y)))
    → ((p q : ℕ) → p ≤ q → q < lptr → k.level_stash p ≤ k.level_stash q)
    → ((q : ℕ) → q < lptr → k.level_stash q ≤ level)
    → choose k x o lptr level ≡ some s
    → k.prio_current y ≤ s.level
unfolding choose
choose-max k x o zero level y s e a c m b h = elim (Option-cases (first_ready k level o)) [
  | inl f ↦ ground arith
  | inr (w, f) ↦ ground arith
]
choose-max k x o (suc p) level y s e a c m b h = elim (Option-cases (first_ready k level o)) [
  | inl f ↦ elim (Bool-cases (current_ready k x p)) [
    | inl g ↦ elim c [
      | inl r ↦ absurd (first_ready-none k level o y f e (a, r))
      | inr (q, l, r) ↦ ground (arith, m q p (omega arith) (omega arith))
    ]
    | inr g ↦
        choose-max k x o p (k.level_stash p) y s e a
          (level_below k p y
            (elim c [ inl r ↦ absurd (first_ready-none k level o y f e (a, r)) | inr r ↦ r ]))
          (λ i j u v. m i j u (omega arith)) (λ q u. m q p (omega arith) (omega arith))
          (ground arith)
  ]
  | inr (w, f) ↦ elim c [ inl r ↦ ground arith | inr (q, l, r) ↦ ground (arith, b q l) ]
]

-- The search computes the choice: within one tour for each level that is left.
pub scan-choose :
    (lptr total : ℕ) (k : Kernel) (x level : ℕ) (o : List ℕ) (s : Scan)
    → k.current_task ≡ x
    → k.enable_dws ≡ true
    → ((j : ℕ) → elem j (x ∷ o) ≡ true → Exact k.jmp_list j)
    → Walk k.jmp_list x (x ∷ o) x
    → elem x o ≡ false
    → lptr < 256
    → suc lptr * suc (length o) ≤ total
    → choose k x o lptr level ≡ some s
    → scan total k (record { next = x; level = level; lptr = lptr }) ≡ some s
unfolding choose
scan-choose zero total k x level o s c d e w n b t h =
    ground (arith, scan-tour total (total - suc (length o)) k x x level 0 o c e w n (omega arith))
scan-choose (suc p) total k x level o s c d e w n b t h =
    let rest : ℕ = total - suc (length o) in
    let here : sub8 (suc p) 1 ≡ p = omega arith in
    ground (
      arith,
      here,
      scan-tour total rest k x x level (suc p) o c e w n (grind arith),
      scan-choose p rest k x (k.level_stash p) o s c d e w n (omega arith) (grind arith),
    )
