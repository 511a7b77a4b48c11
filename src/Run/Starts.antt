-- ===== src/Run/Starts.antt =====
-- The kernel is coherent after `task_start_arg` (src/task.c), whether the task is created or refused.
use skibios.Prelude.{
  ℕ, suc, ◌+◌, ◌*◌, ◌/◌, ◌≤◌, ◌<◌, ◌≡◌, ◌≢◌, ◌⊎◌, refl, ◌∙◌, true, List, [], ◌∷◌, arith, ◌==◌,
  dec_lt, length, bit_or, bit_or_sum,
}
use skibios.Prelude.Loops.{find_first_before}
use skibios.Config.{Config, IsSupported}
use skibios.Kvar.{Kernel, task_state_idle}
use skibios.Service.{Frame, returns}
use skibios.Ring.{Chain, IsRing, elem}
use skibios.Ring.Split.{Chain-above, elem-Below}
use skibios.Ring.Edit.{insert}
use skibios.Ring.Members.{elem-insert}
use skibios.Task.Stack.{place_stack}
use skibios.Task.Create.{find_idle, new_task_id, fill_slot, svc_service_task_create}
use skibios.Task.Create.Link.{find_idle_lem, insert-IsRing}
use skibios.Run.Quiet.{IsStill}
use skibios.Run.State.{IsCoherent}
use skibios.Run.Create.{IsCreated}

-- A ring that has every index is as long as there are indices.
full-length :
    (n : ℕ) (jmp : ℕ → ℕ) (x : ℕ) (r : List ℕ)
    → Chain jmp x r
    → ((i : ℕ) → x ≤ i → i < n → elem i (x ∷ r) ≡ true)
    → n ≤ x + suc (length r)
full-length n jmp x [] c f = elim (dec_lt (x + 1) n) [
  | yes l ↦ absurd (ground (arith, f (x + 1) (omega arith) l))
  | no l ↦ omega arith
]
full-length n jmp x (y ∷ r) c f = elim (dec_lt (x + 1) n) [
  | yes l ↦
      let above = Chain-above jmp y r (x + 1) c.2 in
      let next : y ≡ x + 1 = ground (arith, f (x + 1) (omega arith) l, above) in
      let rest = full-length n jmp y r c.2 (λ i h q. ground (arith, f i (omega arith) q)) in
      omega (arith, rest)
  | no l ↦ omega arith
]

-- While the count is below the number of slots, some slot is idle.
pub find_idle_free :
    (c : Config) (k : Kernel) (r : List ℕ)
    → IsRing c.max_task_count k r
    → k.task_count ≡ suc (length r)
    → k.task_count < c.max_task_count
    → find_idle c k < c.max_task_count
unfolding find_idle
find_idle_free c k r v e l =
    let n = c.max_task_count in
    let test = λ (i : ℕ). k.state i == task_state_idle in
    elim (dec_lt (find_idle c k) n) [
      | yes h ↦ h
      | no h ↦
          let all = full-length n k.jmp_list 0 r v.chain (λ i z q.
            ground (arith, v.live i q, find_first_before n 0 test i (omega arith) (omega arith))) in
          absurd (omega (arith, all))
    ]

pub create-cases :
    (c : Config) (fr fr' : Frame)
    → svc_service_task_create c fr ≡ returns fr'
    → IsStill fr.kernel fr'.kernel
      ⊎ ((fr.kernel.task_count < c.max_task_count)
          × (fill_slot c fr
                (place_stack c fr.kernel (find_idle c fr.kernel))
                (find_idle c fr.kernel)
                (fr.arguments 0)
              ≡ returns fr'))
unfolding svc_service_task_create place_stack
create-cases c fr fr' e = ground arith

new_task_id-slot : (k : Kernel) (i : ℕ) → k.total_task_count < 65535 → new_task_id k i / 65536 ≡ i
new_task_id-slot k i h =
    let s : bit_or (i * 65536) (k.total_task_count + 1) ≡ i * 65536 + (k.total_task_count + 1) =
      bit_or_sum 16 i (k.total_task_count + 1) (omega arith) in
    omega (arith, s)

length-insert : (i : ℕ) (r : List ℕ) → length (insert i r) ≡ suc (length r)
length-insert i [] = refl
length-insert i (y ∷ r) = ground (arith, length-insert i r)

pub created-IsCoherent :
    (c : Config) (k k' : Kernel) (r : List ℕ) (ptr : ℕ)
    → IsSupported c
    → IsCoherent c.max_task_count k r
    → ptr ≢ 0
    → ((i : ℕ) → i < c.max_task_count → k.task_obj i ≢ ptr)
    → k.total_task_count < 65535
    → k.task_count < c.max_task_count
    → IsCreated k k' (find_idle c k) ptr
    → IsCoherent c.max_task_count k' (insert (find_idle c k) r)
created-IsCoherent c k k' r ptr b v z new t room w =
    let n = c.max_task_count in
    let i = find_idle c k in
    let g = v.registered in
    let bound = find_idle_free c k r v.ring g.count room in
    let (free, pos, live) = find_idle_lem c k r v.ring bound in
    let member = λ (j : ℕ). elem-insert i r j in
    let inside = λ (j : ℕ). elem-Below n j (0 ∷ r) v.ring.below in
    record {
      ring = insert-IsRing n k k' r i b.few_tasks v.ring bound pos free live w.jmp_list w.state;
      registered = record {
        count = ground (arith, w.task_count, g.count, length-insert i r, b.few_tasks);
        ids = λ j h. ground (arith, w.task_id j, member j, g.ids j, new_task_id-slot k i t);
        real = λ j h. ground (arith, w.task_obj j, member j, g.real j);
        vacant = λ j l h. ground (arith, w.task_obj j, member j, g.vacant j l);
        unique = λ j q hj hq e. ground (
          arith,
          w.task_obj j,
          w.task_obj q,
          member j,
          member q,
          g.unique j q,
          new j,
          new q,
          inside j,
          inside q,
        );
      };
      next = ground (arith, w.next_task, v.next, member k.next_task);
      switched = λ h. ground (arith, w.next_task, w.current_task, w.normal_schedule, v.switched);
      self_kill = w.self_kill ∙ v.self_kill;
      alone = λ j l e. ground (arith, w.state j, v.alone j l, w.current_task, w.normal_schedule);
    }
