-- ===== src/Lib.antt =====
-- The kernel of SKIBIOS, a real-time operating system for small microcontrollers: a preemptive scheduler
-- with priorities over a fixed number of task slots, services that tasks call by a supervisor call,
-- and a base task (slot 0) that grants permissions to the others.
--
-- The state. `Kernel` (Kvar) is the record of the variables of src/kvar.c, in its words. An array is a
-- function of the index; the two columns of `priority_Array` are `prio_current` and `prio_stashed`.
-- A pointer is its address: `mem` holds the words of the memory and the device registers, `objs`
-- the `task_t` objects. Neither overlaps the kernel's variables, and every
-- array of the kernel has MAX_TASK_COUNT entries: where a service writes behind an array, or to an address that its
-- caller gave and that is a variable of the kernel (`is_kernel_var`), the model stops with `faults`. A theorem
-- about a call that returns says nothing about such a call. A word that is read at such an address is what `mem`
-- holds there, which the theorems leave open. A device register keeps what was
-- written last. Machine integers wrap where the source's do (Prelude/Words); an `int8_t`, as in
-- `jmp_list`, is its bit pattern below 256. Barriers and `volatile` have no counterpart, since each
-- service and each run of the scheduler is one step.
--
-- The parts, and the files that model them:
--   Kvar, Error, Svc, Config: src/kvar.c and src/include (kvar.h, defines.h, task_obj.h, error.h,
--     svc.h). Config holds what the build and the linker choose (param.h, mpu_table, addresses).
--   Hardware, Timer, Interrupt: src/arch/arm-m3m4 (regmap.h, os_support.h, os_timer.c,
--     arch_interrupt.c) and the services of src/service/svr_interrupts.c.
--   Ring: the jump list as a ring of the live tasks, the invariant that the other parts share.
--   Scheduler: `scheduler` of src/kernel.c, and `timer_routine` of src/arch/ossim/os_timer.c.
--     Sweep, Rounds, Choice, Steady, Total and Active prove what it does.
--   Task: the services of src/service/svr_task.c (Create, Kill, Hibernate, Promote), `level_stash`
--     (Levels) and the stack of a new task (Stack; src/arch/arm-m3m4/os_util.c).
--   Permission, Umpu, System: src/service/svr_permissions.c, src/service/svr_umpu.c, src/umpu.c and
--     the services of src/kernel.c.
--   Service, Dispatch: the shape of a service, the table of src/svctable.c and the loop of
--     src/arch/ossim/svc_handler.c; the loop of src/arch/arm-m3m4/svc_handler.S
--     is the same for every code but 0, which it takes for the end of the table.
--   Macros, Api: the macros of src/arch/arm-m3m4/svc_macros.h and the functions that tasks call
--     (src/task.c, src/permissions.c, src/interrupt.c, the end of src/kernel.c). Api/Hibernate is
--     `hibernate` of src/task.c with its waiting loops.
--   Share: src/share.c over the assembly of src/arch/arm-m3m4 (mutex.S, semaphore.S); the other tasks and
--     the exclusive stores that are lost are a `World`.
--   Base: the base task of src/baset.c; Base/Protocol follows an invocation from `base_run` to the result.
--   Mpc57x8: the port of src/arch/mpc57x8 (arch_interrupt.c, os_timer.c, os_util.c), over a record of its
--     registers; the other files are about ARM M3/M4.
--   Boot: `kernel_init` and `start_scheduler` of src/kernel.c, with `arch_kernel_init` and
--     `arch_mpu_init` of src/arch/arm-m3m4/os_util.c.
--   Heap: src/heap.c and src/service/svr_heap.c. A marker is a word of the bookkeeping region, held by two maps from its
--     address to its half-words. Heap/Chain says when the markers are a list (`IsHeap`); Heap/Search, Heap/Append and
--     Heap/Release are the routines in assembly, with what they do to that list, and Heap/Service the services. The
--     rows of the services in src/svctable.c are commented out, so that the kernel of the other parts does not reach them.
--   Run: the steps of the running kernel and the states they reach. Run/State says what is kept by every
--     step (`IsCoherent`), the other files show it for each kind of step, and Run/Startup for
--     the state after `kernel_init`.
--   Examples: small states on which the theorems are applied.
--
-- How the parts meet: an API function runs a macro, which builds a `Frame` (the kernel, the service
-- code, the argument registers) for `svc_handler`; each service returns an `Outcome`; a service that
-- writes another code into `svc_num` is followed by that service. A service that retires the running
-- task clears `normal_schedule` and requests the scheduler, whose choice becomes `current_task` at
-- the context switch.
--
-- Bounds and fuel. `IsSupported` asks for at most 120 task slots, which README.md gives as the limit. The
-- sweep has one round for each slot, the search of the scheduler one tour of the ring for each level,
-- the binary search 257 rounds, `svc_handler` three, and the loop of `spin_lock` one for each retry and
-- one more, where no `continue` is taken. The walks over the markers of the heap have as many rounds as there are markers,
-- and one more where a marker is added or looked for; the loops that have no count in the source are `none` when they
-- go on for ever. In each case theorems below or beside the
-- definition show that this is enough where the loop of the source ends. Running out of fuel is
-- an outcome of its own (`none`, `endless`, `hangs`).
--
-- Not modelled: `heap_release` of src/heap.c, which only passes its argument to the service, and the registers that
-- the assembly of the heap saves and restores; the branch of `spin_lock` under ENABLE_SAFE_LOCK, the macros and the assembly of the port to
-- MPC57x8, the simulator's threads (src/arch/ossim but for the two functions above), the assembly of the
-- context switch and the stack pointers and MPU region it sets, the vector table of src/startup.c,
-- and the generators (objgen).
pub mod Prelude
pub mod Config
pub mod Error
pub mod Kvar
pub mod Hardware
pub mod Ring
pub mod Scheduler
pub mod Svc
pub mod Service
pub mod Task
pub mod Permission
pub mod Interrupt
pub mod Timer
pub mod Umpu
pub mod System
pub mod Dispatch
pub mod Macros
pub mod Api
pub mod Share
pub mod Base
pub mod Heap
pub mod Mpc57x8
pub mod Run
pub mod Boot
pub mod Examples
