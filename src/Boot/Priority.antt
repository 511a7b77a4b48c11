-- ===== src/Boot/Priority.antt =====
-- The priorities that `arch_kernel_init` (src/arch/arm-m3m4/os_util.c) asks for.
use skibios.Prelude.{ℕ, zero, suc, ◌+◌, ◌-◌, ◌≡◌, ◌∙◌, some, arith}
use skibios.Prelude.Loops.{for_range}
use skibios.Config.{Config}
use skibios.Kvar.{Kernel}
use skibios.Interrupt.{svc_service_int_set_priority}
use skibios.Dispatch.{svc_dispatch, find_service, call_service, svc_loop, svc_handler}
use skibios.Macros.{registers, svc_frame, svc}
use skibios.Api.{interrupt_set_priority}
use skibios.Boot.{after, lower_priority, arch_setup, arch_kernel_init}

refused_lem :
    (c : Config) (k : Kernel) (i : ℕ)
    → k.permissions k.current_task ≡ 0
    → lower_priority c i (some k) ≡ some k
unfolding lower_priority after interrupt_set_priority svc svc_frame registers svc_handler svc_loop
    call_service find_service svc_dispatch svc_service_int_set_priority
refused_lem c k i h = ground arith

refused_loop :
    (c : Config) (k : Kernel) (n i : ℕ)
    → k.permissions k.current_task ≡ 0
    → for_range n i (lower_priority c) (some k) ≡ some k
unfolding for_range
refused_loop c k zero i h = ground arith
refused_loop c k (suc n) i h = rw (refused_lem c k i h, for_range) (refused_loop c k n (i + 1) h)

setup-owner :
    (c : Config) (k : Kernel)
    → (arch_setup c k).permissions (arch_setup c k).current_task ≡ k.permissions k.current_task
unfolding arch_setup
setup-owner c k = ground arith

-- Where the permissions of the running task are still zero, which they are when `kernel_init` calls
-- this function, every request to lower the priority of an interrupt is refused: the kernel is what
-- the writes before the loop have made of it.
pub arch_kernel_init-arch_setup :
    (c : Config) (k : Kernel)
    → k.permissions k.current_task ≡ 0
    → arch_kernel_init c k ≡ some (arch_setup c k)
unfolding arch_kernel_init
arch_kernel_init-arch_setup c k h =
    refused_loop c (arch_setup c k) (c.num_of_interrupts - 16) 16 (setup-owner c k ∙ h)
