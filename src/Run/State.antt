-- ===== src/Run/State.antt =====
-- What holds of the kernel between any two steps, and that a quiet step keeps it.
use skibios.Prelude.{
  ℕ, suc, ◌/◌, ◌<◌, ◌≡◌, ◌≢◌, sym, ap, ◌∙◌, true, false, List, ◌∷◌, arith, length,
}
use skibios.Kvar.{Kernel, task_state_active}
use skibios.Ring.{IsRing, elem}
use skibios.Ring.Split.{IsRing-congr}
use skibios.Run.Quiet.{IsQuiet}

-- The tables of the task objects and of the ids, and the count, agree with the ring.
pub record IsRegistered (n : ℕ) (k : Kernel) (r : List ℕ) : Type 0 where
  pub count : k.task_count ≡ suc (length r)
  pub ids : (i : ℕ) → elem i (0 ∷ r) ≡ true → k.task_id i / 65536 ≡ i
  pub real : (i : ℕ) → elem i (0 ∷ r) ≡ true → k.task_obj i ≢ 0
  pub vacant : (i : ℕ) → i < n → elem i (0 ∷ r) ≡ false → k.task_obj i ≡ 0
  pub unique :
      (i j : ℕ)
      → elem i (0 ∷ r) ≡ true
      → elem j (0 ∷ r) ≡ true
      → k.task_obj i ≡ k.task_obj j
      → i ≡ j

-- While no reschedule is pending, the running task is live and the last choice of the scheduler; no
-- other task is active.
pub record IsCoherent (n : ℕ) (k : Kernel) (r : List ℕ) : Type 0 where
  pub ring : IsRing n k r
  pub registered : IsRegistered n k r
  pub next : elem k.next_task (0 ∷ r) ≡ true
  pub switched : k.normal_schedule ≡ true → k.next_task ≡ k.current_task
  pub self_kill : k.self_kill ≡ false
  pub alone :
      (i : ℕ)
      → i < n
      → k.state i ≡ task_state_active
      → (i ≡ k.current_task) × (k.normal_schedule ≡ true)

pub IsRegistered-congr :
    (n : ℕ) (k k' : Kernel) (r : List ℕ)
    → k'.task_obj ≡ k.task_obj
    → k'.task_id ≡ k.task_id
    → k'.task_count ≡ k.task_count
    → IsRegistered n k r
    → IsRegistered n k' r
IsRegistered-congr n k k' r e1 e2 e3 v = record {
  count = e3 ∙ v.count;
  ids = λ i h. ap (λ f. f i / 65536) e2 ∙ v.ids i h;
  real = λ i h e. v.real i h (sym (ap (λ f. f i) e1) ∙ e);
  vacant = λ i l h. ap (λ f. f i) e1 ∙ v.vacant i l h;
  unique = λ i j h l e. v.unique i j h l (sym (ap (λ f. f i) e1) ∙ e ∙ ap (λ f. f j) e1);
}

pub IsQuiet-IsCoherent :
    (n : ℕ) (k k' : Kernel) (r : List ℕ) → IsQuiet k k' → IsCoherent n k r → IsCoherent n k' r
IsQuiet-IsCoherent n k k' r q v = record {
  ring = IsRing-congr n k k' r q.jmp_list (λ i h. q.live i) v.ring;
  registered = IsRegistered-congr n k k' r q.task_obj q.task_id q.task_count v.registered;
  next = ap (λ x. elem x (0 ∷ r)) q.next_task ∙ v.next;
  switched = λ h. ground (arith, q.retired, q.next_task, q.current_task, v.switched);
  self_kill = q.self_kill;
  alone = λ i l e.
      let (here, normal) = v.alone i l (q.active i e) in
      ground (arith, q.retired, q.current_task, here, normal, ap k'.state here);
}
