-- ===== src/Run/Ends.antt =====
-- The kernel is coherent after a task has been killed and after a task has ended itself.
use skibios.Prelude.{
  ℕ, suc, ◌+◌, ◌/◌, ◌≤◌, ◌<◌, ◌≡◌, ◌≢◌, sym, subst, Bool, Bool-cases, inl, inr, true, false, List,
  [], ◌∷◌, arith, ◌==◌, u8, length,
}
use skibios.Config.{Config, IsSupported}
use skibios.Kvar.{Kernel}
use skibios.Service.{Frame, returns}
use skibios.Ring.{Chain, Below, IsRing, elem}
use skibios.Ring.Split.{Chain-above, Chain-length}
use skibios.Ring.Edit.{remove}
use skibios.Ring.Members.{elem-remove}
use skibios.Task.Kill.{svc_service_task_kill}
use skibios.Task.Kill.Unlink.{find_previous_bound, task_kill-IsRing}
use skibios.Run.State.{IsRegistered, IsCoherent}
use skibios.Run.Kill.{IsKilled, task_kill-IsKilled}

length-remove : (i : ℕ) (r : List ℕ) → elem i r ≡ true → suc (length (remove i r)) ≡ length r
length-remove i [] h = ground arith
length-remove i (y ∷ r) h = ground (arith, length-remove i r)

-- What the removal leaves: the tables agree with the smaller ring.
pub killed-IsRegistered :
    (n : ℕ) (k k' : Kernel) (r : List ℕ) (i : ℕ) (itself : Bool)
    → n ≤ 120
    → IsRing n k r
    → elem i r ≡ true
    → IsKilled k k' i itself
    → IsRegistered n k r
    → IsRegistered n k' (remove i r)
killed-IsRegistered n k k' r i itself b v m w g =
    let member = λ (j : ℕ). elem-remove k.jmp_list 0 i r j v.chain in
    let pos : 0 < i = ground (arith, Chain-above k.jmp_list 0 r i v.chain) in
    let few = Chain-length n k.jmp_list 0 r v.chain v.below in
    record {
      count = ground (arith, w.task_count, g.count, length-remove i r m);
      ids = λ j h. ground (arith, w.task_id j, member j, g.ids j);
      real = λ j h. ground (arith, w.task_obj j, member j, g.real j);
      vacant = λ j l h. ground (arith, w.task_obj j, member j, g.vacant j l);
      unique = λ j q hj hq e.
          ground (arith, w.task_obj j, w.task_obj q, member j, member q, g.unique j q);
    }

-- The ring that `task_kill-IsRing` speaks of, for a given return.
pub killed-IsRing :
    (c : Config) (fr fr' : Frame) (r : List ℕ) (i : ℕ)
    → IsSupported c
    → IsRing c.max_task_count fr.kernel r
    → elem i r ≡ true
    → u8 (fr.arguments 0 / 65536) ≡ i
    → svc_service_task_kill c fr ≡ returns fr'
    → IsRing c.max_task_count fr'.kernel (remove i r)
killed-IsRing c fr fr' r i b v m a e =
    let (fr2, e2, q, w) = task_kill-IsRing c fr r b v (subst (λ x. elem x r ≡ true) (sym a) m) in
    let same : fr2 ≡ fr' = ground arith in
    subst (λ x. IsRing c.max_task_count x.kernel (remove i r)) same
      (subst (λ x. IsRing c.max_task_count fr2.kernel (remove x r)) a w)

pub killed-IsCoherent :
    (c : Config) (fr fr' : Frame) (r : List ℕ) (i : ℕ)
    → IsSupported c
    → IsCoherent c.max_task_count fr.kernel r
    → fr.kernel.normal_schedule ≡ true
    → elem i r ≡ true
    → i ≢ fr.kernel.current_task
    → u8 (fr.arguments 0 / 65536) ≡ i
    → fr.arguments 1 ≡ 0
    → svc_service_task_kill c fr ≡ returns fr'
    → IsCoherent c.max_task_count fr'.kernel (remove i r)
killed-IsCoherent c fr fr' r i b v h m ne a z e =
    let k = fr.kernel in
    let n = c.max_task_count in
    let w : IsKilled k fr'.kernel i (fr.arguments 1 == 1) =
      subst (λ x. IsKilled k fr'.kernel x (fr.arguments 1 == 1)) a
        (task_kill-IsKilled c fr fr' e) in
    let next = w.next_task (find_previous_bound n k r i b.few_tasks v.ring m) in
    let member = λ (j : ℕ). elem-remove k.jmp_list 0 i r j v.ring.chain in
    let pos : 0 < i = ground (arith, Chain-above k.jmp_list 0 r i v.ring.chain) in
    let quiet : fr'.kernel.self_kill ≡ false = ground (arith, w.self_kill, v.self_kill) in
    let kept : fr'.kernel.next_task ≡ k.next_task = ground (arith, next, quiet) in
    record {
      ring = killed-IsRing c fr fr' r i b v.ring m a e;
      registered =
          killed-IsRegistered n k fr'.kernel r i (fr.arguments 1 == 1) b.few_tasks v.ring m w
            v.registered;
      next = ground (arith, v.next, v.switched h, kept, member k.next_task);
      switched = λ s. ground (arith, v.switched h, kept, w.current_task);
      self_kill = quiet;
      alone = λ j l s. ground (arith, w.state j, v.alone j l, w.current_task, w.normal_schedule, h);
    }

-- The successor of a task of the ring other than the base task is another task of the ring.
pub successor :
    (n : ℕ) (jmp : ℕ → ℕ) (x : ℕ) (r : List ℕ) (i : ℕ)
    → n ≤ 120
    → Below n (x ∷ r)
    → Chain jmp x r
    → elem i r ≡ true
    → (elem (u8 (i + jmp i)) (0 ∷ r) ≡ true) × (u8 (i + jmp i) ≢ i)
successor n jmp x [] i b s c h = absurd (ground arith)
successor n jmp x (y ∷ []) i b s c h = ground arith
successor n jmp x (y ∷ z ∷ r) i b s c h = elim (Bool-cases (i == y)) [
  | inl e ↦ ground arith
  | inr e ↦ ground (arith, successor n jmp y (z ∷ r) i b s.1 c.2)
]
