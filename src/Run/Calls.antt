-- ===== src/Run/Calls.antt =====
-- A whole call of `svc_handler` (src/arch/ossim/svc_handler.c) that neither creates nor kills a task.
use skibios.Prelude.{
  ℕ, zero, suc, ◌≡◌, inl, inr, refl, subst, ap, ◌∙◌, true, false, Option-cases, Bool-cases, arith,
  ◌==◌,
}
use skibios.Config.{Config}
use skibios.Kvar.{Kernel}
use skibios.Service.{Frame, Outcome, returns, resets, faults, hangs}
use skibios.Ring.{is_live}
use skibios.Dispatch.{svc_dispatch, call_service, svc_loop, svc_handler}
use skibios.Dispatch.Table.{AllRows, call_service-AllRows}
use skibios.Run.{IsPlain}
use skibios.Run.Quiet
use skibios.Run.Quiet.{IsQuiet, Follows, Quiet}

abbrev PlainRow : ℕ → (Frame → Outcome) → Type 0
PlainRow code service = IsPlain code → Quiet service

table-PlainRow : (c : Config) → AllRows PlainRow (svc_dispatch c)
unfolding svc_dispatch
table-PlainRow c = (
  (λ p. Quiet.hand_over-Quiet),
  (
    (λ p. Quiet.hibernate-Quiet),
    (
      (λ p. Quiet.promote-Quiet c),
      (
        (λ p. Quiet.demote-Quiet c),
        (
          (λ p. Quiet.hwreg_write-Quiet c),
          (
            (λ p. Quiet.hwreg_read-Quiet c),
            (
              (λ p. absurd (p.0 refl)),
              (
                (λ p. absurd (p.1 refl)),
                (
                  (λ p. Quiet.invoke_base-Quiet c),
                  (
                    (λ p. Quiet.release_base-Quiet c),
                    (
                      (λ p. Quiet.grant_permission-Quiet c),
                      (
                        (λ p. Quiet.int_enable-Quiet),
                        (
                          (λ p. Quiet.int_disable-Quiet),
                          (
                            (λ p. Quiet.int_register-Quiet c),
                            (
                              (λ p. Quiet.set_priority-Quiet),
                              (
                                (λ p. Quiet.cpu_freq-Quiet c),
                                (
                                  (λ p. Quiet.start_scheduler-Quiet c),
                                  ((λ p. Quiet.device_reset-Quiet), tt),
                                ),
                              ),
                            ),
                          ),
                        ),
                      ),
                    ),
                  ),
                ),
              ),
            ),
          ),
        ),
      ),
    ),
  ),
)

Follows-IsPlain : (code code' : ℕ) → Follows code code' → IsPlain code → IsPlain code'
Follows-IsPlain code code' f p = (λ e. ground arith, λ e. ground arith)

pub IsQuiet-trans : (a b d : Kernel) → IsQuiet a b → IsQuiet b d → IsQuiet a d
IsQuiet-trans a b d v w = record {
  jmp_list = w.jmp_list ∙ v.jmp_list;
  next_task = w.next_task ∙ v.next_task;
  current_task = w.current_task ∙ v.current_task;
  task_obj = w.task_obj ∙ v.task_obj;
  task_id = w.task_id ∙ v.task_id;
  task_count = w.task_count ∙ v.task_count;
  total_task_count = w.total_task_count ∙ v.total_task_count;
  self_kill = w.self_kill;
  live = λ i. w.live i ∙ v.live i;
  active = λ i e. v.active i (w.active i e);
  retired = ground (arith, v.retired, w.retired, w.active a.current_task, v.current_task);
}

pub IsQuiet-refl : (k : Kernel) → k.self_kill ≡ false → IsQuiet k k
IsQuiet-refl k h = record {
  jmp_list = refl;
  next_task = refl;
  current_task = refl;
  task_obj = refl;
  task_id = refl;
  task_count = refl;
  total_task_count = refl;
  self_kill = h;
  live = λ i. refl;
  active = λ i e. e;
  retired = inl refl;
}

svc_loop-IsQuiet :
    (c : Config) (fuel : ℕ) (fr fr' : Frame)
    → IsPlain fr.svc_num
    → fr.kernel.self_kill ≡ false
    → is_live fr.kernel fr.kernel.current_task ≡ true
    → svc_loop c fuel fr ≡ returns fr'
    → IsQuiet fr.kernel fr'.kernel
unfolding svc_loop
svc_loop-IsQuiet c zero fr fr' p s l e = absurd (ground arith)
svc_loop-IsQuiet c (suc fuel) fr fr' p s l e = elim (Option-cases (call_service c fr)) [
  | inl h ↦
      let same : fr ≡ fr' = ground arith in
      subst (λ x. IsQuiet fr.kernel x.kernel) same (IsQuiet-refl fr.kernel s)
  | inr (returns mid, h) ↦
      let (service, row, g) = call_service-AllRows PlainRow c (table-PlainRow c) fr mid h in
      let (f, v) = row p fr mid s l g in
      elim (Bool-cases (fr.svc_num == mid.svc_num)) [
        | inl q ↦
            let same : mid ≡ fr' = ground arith in subst (λ x. IsQuiet fr.kernel x.kernel) same v
        | inr q ↦ IsQuiet-trans fr.kernel mid.kernel fr'.kernel v (
            svc_loop-IsQuiet c fuel mid fr' (Follows-IsPlain fr.svc_num mid.svc_num f p) v.self_kill
              (ap (is_live mid.kernel) v.current_task ∙ v.live fr.kernel.current_task ∙ l)
              (ground arith))
      ]
  | inr (resets k, h) ↦ absurd (ground arith)
  | inr (faults, h) ↦ absurd (ground arith)
  | inr (hangs, h) ↦ absurd (ground arith)
]

pub svc_handler-IsQuiet :
    (c : Config) (fr fr' : Frame)
    → IsPlain fr.svc_num
    → fr.kernel.self_kill ≡ false
    → is_live fr.kernel fr.kernel.current_task ≡ true
    → svc_handler c fr ≡ returns fr'
    → IsQuiet fr.kernel fr'.kernel
unfolding svc_handler
svc_handler-IsQuiet c fr fr' p s l e = svc_loop-IsQuiet c 3 fr fr' p s l e
