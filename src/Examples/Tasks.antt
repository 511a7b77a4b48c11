-- ===== src/Examples/Tasks.antt =====
-- The theorems on the services of the tasks and on the levels, on the small states.
use skibios.Prelude.{
  inl, ◌*◌, ℕ, ◌+◌, ◌<◌, ◌≡◌, ◌≢◌, refl, some, ltb, if◌then◌else◌, [], ◌∷◌, arith, update,
}
use skibios.Error.{error_none}
use skibios.Kvar.{Kernel, task_state_sleep}
use skibios.Service.{Frame, returns}
use skibios.Ring.{IsRing, SameRing}
use skibios.Ring.Edit.{insert}
use skibios.Prelude.Loops.{find_first}
use skibios.Task.Levels.{record_level}
use skibios.Task.Levels.Insert.{IsOrdered, record_level-IsOrdered, record_level-misplaced}
use skibios.Task.Stack.{place_stack, clear_stack, arch_task_stack_init}
use skibios.Task.Stack.Bounds.{stack_start, stack_init-Outside}
use skibios.Task.Create.{find_idle, svc_service_task_create}
use skibios.Task.Create.Total.{
  CanCreate, slot, create_error, task_create-IsRing, task_create-refused,
}
use skibios.Task.Kill.{remove_level}
use skibios.Task.Kill.Levels.{remove_level-IsOrdered}
use skibios.Task.Promote.Return.{lend, IsReturned, lend-IsReturned}
use skibios.Svc
use skibios.Examples.{
  three_slots, three_slots-IsSupported, new_task, two_tasks, two_tasks-IsRing, call,
}

-- Task 1 asks for a third task.
abbrev creation : Frame
creation = call two_tasks Svc.create_task 300 7

creation-CanCreate : CanCreate three_slots creation
unfolding find_idle place_stack find_first
creation-CanCreate = record {
  object = refl;
  room = ground arith;
  free = ground arith;
  priority = ground arith;
  not_base = refl;
  stack = ground arith;
  awake = refl;
  base = refl;
  levels = ground arith;
}

task_create-IsRing_example :
    (fr' : Frame) × (svc_service_task_create three_slots creation ≡ returns fr')
    × (fr'.error ≡ error_none)
    × (fr'.kernel.state (slot three_slots creation) ≡ task_state_sleep)
    × IsRing 3 fr'.kernel (insert (slot three_slots creation) (1 ∷ []))
task_create-IsRing_example =
    task_create-IsRing three_slots creation (1 ∷ []) three_slots-IsSupported two_tasks-IsRing
      creation-CanCreate

-- The priority 200 is none.
abbrev bad_creation : Frame
bad_creation =
    call (record two_tasks { objs = λ a. record new_task { priority = 200 } }) Svc.create_task 300 7

bad_creation-fails : create_error three_slots bad_creation ≢ error_none
bad_creation-fails = ground arith

task_create-refused_example :
    (fr' : Frame) × (svc_service_task_create three_slots bad_creation ≡ returns fr')
    × (fr'.error ≡ create_error three_slots bad_creation)
    × ((fr'.kernel.objs 300).error ≡ create_error three_slots bad_creation)
    × SameRing bad_creation.kernel fr'.kernel
    × (fr'.kernel.task_count ≡ 2)
    × (fr'.kernel.level_stash ≡ two_tasks.level_stash)
    × (fr'.kernel.task_obj ≡ two_tasks.task_obj)
task_create-refused_example = task_create-refused three_slots bad_creation refl bad_creation-fails

abbrev killing : Frame
killing = call two_tasks Svc.kill_task 65538 0

two_tasks-IsOrdered : IsOrdered two_tasks
two_tasks-IsOrdered = record {
  base = refl;
  some_level = omega arith;
  few = omega arith;
  increasing = λ p q h l. ground arith;
}

abbrev high_task : Kernel
high_task = record two_tasks { prio_current = update two_tasks.prio_current 2 9 }

high_task-IsOrdered : IsOrdered high_task
high_task-IsOrdered = record {
  base = refl;
  some_level = omega arith;
  few = omega arith;
  increasing = λ p q h l. ground arith;
}

record_level-IsOrdered_example :
    (k' : Kernel) × (record_level high_task 2 ≡ some k')
    × IsOrdered k'
    × (k'.lstash_ptr ≡ 3)
    × (k'.level_stash 2 ≡ 9)
record_level-IsOrdered_example =
    record_level-IsOrdered high_task 2 high_task-IsOrdered (omega arith) (λ q h. ground arith)

abbrev middle_task : Kernel
middle_task = record two_tasks { prio_current = update two_tasks.prio_current 2 3 }

record_level-misplaced_example :
    (k' : Kernel) × (record_level middle_task 2 ≡ some k')
    × (k'.lstash_ptr ≡ 3)
    × (k'.level_stash 0 ≡ 3)
    × (k'.level_stash 1 ≡ 0)
    × (k'.level_stash 2 ≡ 5)
record_level-misplaced_example =
    record_level-misplaced middle_task 2 5 refl refl refl (omega arith) (omega arith)

remove_level-IsOrdered_example :
    IsOrdered (remove_level two_tasks 1)
    × ((remove_level two_tasks 1).lstash_ptr + 1 ≡ 2)
    × ((j : ℕ)
        → j + 1 < 2
        → (remove_level two_tasks 1).level_stash j
          ≡ (if ltb j 1 then two_tasks.level_stash j else two_tasks.level_stash (j + 1)))
remove_level-IsOrdered_example =
    remove_level-IsOrdered two_tasks 1 1 two_tasks-IsOrdered (omega arith) (omega arith) refl

-- The word of the mutex at 50 names the base task as its owner.
abbrev waiting : Frame
waiting = call two_tasks Svc.priority_promote 50 0

lend-IsReturned_example :
    (fr' : Frame) × (lend three_slots waiting ≡ returns fr') × IsReturned two_tasks fr'.kernel
lend-IsReturned_example =
    lend-IsReturned three_slots waiting refl (omega arith) (omega arith) (ground arith)
      (λ i h e. ground arith)

-- The stack of slot 2 lies from 0x20001200 to 0x20001300.
stack_init-Outside_example :
    ((arch_task_stack_init three_slots
          (clear_stack three_slots (place_stack three_slots two_tasks 2) 2)
          2
          1000
          7).mem
        64
      ≡ two_tasks.mem 64)
    × ((arch_task_stack_init three_slots
              (clear_stack three_slots (place_stack three_slots two_tasks 2) 2)
              2
              1000
              7).psp_array
            2
          + 76
        ≡ stack_start three_slots two_tasks 2 + 64 * 4)
stack_init-Outside_example =
    stack_init-Outside three_slots two_tasks 2 1000 7 64 (omega arith) (omega arith)
      (inl (omega arith))
