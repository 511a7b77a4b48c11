-- ===== src/Dispatch/Chain.antt =====
-- The loop of `svc_handler` (src/arch/ossim/svc_handler.c): every service of the table steps down in
-- rank or leaves its own code, so the loop ends.
use skibios.Prelude.{refl, ◌≡◌, ◌≢◌, none, some}
use skibios.Config.{Config}
use skibios.Svc
use skibios.Service.{Frame, Outcome, returns}
use skibios.Dispatch.{svc_dispatch, call_service}
use skibios.Dispatch.Table.{AllRows, call_service-AllRows}
use skibios.Dispatch.Rows
use skibios.Dispatch.Rows.{IsStep, Steps}

table-Steps : (c : Config) → AllRows Steps (svc_dispatch c)
unfolding svc_dispatch
table-Steps c = (
  Rows.hand_over-step,
  (
    Rows.hibernate-step Svc.hibernate,
    (
      Rows.promote-step c Svc.priority_promote,
      (
        Rows.demote-step c,
        (
          Rows.hwreg_write-step c Svc.hwreg_write,
          (
            Rows.hwreg_read-step c Svc.hwreg_read,
            (
              Rows.create-step c Svc.create_task,
              (
                Rows.kill-step c,
                (
                  Rows.invoke_base-step c,
                  (
                    Rows.release_base-step c,
                    (
                      Rows.grant_permission-step c Svc.grant_permission,
                      (
                        Rows.int_enable-step Svc.int_enable,
                        (
                          Rows.int_disable-step Svc.int_disable,
                          (
                            Rows.int_register-step c Svc.int_register,
                            (
                              Rows.set_priority-step Svc.set_priority,
                              (
                                Rows.cpu_freq-step c Svc.cpu_freq,
                                (
                                  Rows.start_scheduler-step c,
                                  (Rows.device_reset-step Svc.device_reset, tt),
                                ),
                              ),
                            ),
                          ),
                        ),
                      ),
                    ),
                  ),
                ),
              ),
            ),
          ),
        ),
      ),
    ),
  ),
)

pub call_service-IsStep :
    (c : Config) (fr fr' : Frame) → call_service c fr ≡ some (returns fr') → IsStep fr fr'
call_service-IsStep c fr fr' e =
    let (service, step, f) = call_service-AllRows Steps c (table-Steps c) fr fr' e in
    step fr fr' refl f

-- The loop of `svc_handler` without a bound: a derivation is a run of the loop that ends. `hangs` is a
-- service that does not end itself.
pub data Ends (c : Config) : Frame → Outcome → Type 0 where
  no_service : (fr : Frame) → call_service c fr ≡ none → Ends c fr (returns fr)
  stops :
      (fr : Frame) (o : Outcome)
      → call_service c fr ≡ some o
      → ((x : Frame) → o ≡ returns x → fr.svc_num ≡ x.svc_num)
      → Ends c fr o
  follows :
      (fr x : Frame) (o : Outcome)
      → call_service c fr ≡ some (returns x)
      → fr.svc_num ≢ x.svc_num
      → Ends c x o
      → Ends c fr o
