-- ===== src/Examples/Sharing.antt =====
-- The theorems on mutexes, semaphores and the base task, on the small states.
use skibios.Prelude.{
  ℕ, ◌+◌, ◌-◌, ◌%◌, ◌≡◌, refl, some, false, not, ◌&&◌, arith, ◌==◌, ltb, if◌then◌else◌, u8, update,
}
use skibios.Prelude.Loops.{find_first}
use skibios.Error.{error_none, error_resource_locked_indefinetly}
use skibios.Kvar.{Kernel}
use skibios.Service.{Frame, returns}
use skibios.Api.{base_run}
use skibios.Share.{World, mutex_lock, semaphore_increment, semaphore_decrement, spin_lock}
use skibios.Share.Semaphores.{semaphore_increment_lem, semaphore_decrement_lem}
use skibios.Share.Lock.{Holds, IsEnded, spin_lock-IsEnded, spin_lock_released, mutex_lock_twice}
use skibios.Base.{base_round}
use skibios.Base.Protocol.{IsServed, base_run-base_round}
use skibios.Examples.{three_slots, two_tasks}

-- The first attempt is disturbed; the others do nothing but let the holder of the mutex at 700 return it.
abbrev busy : World
busy = record {
  lost = λ turn. turn == 0;
  away = λ turn m. record m { mem = update m.mem 700 0; max_level = 5 };
  lent = λ turn m. record m { max_level = 5 };
}

abbrev counting : World
counting = record { lost = λ turn. turn == 0; away = λ turn m. m; lent = λ turn m. m }

-- A semaphore at 704 stands at 3, and the mutex at 700 is held by the base task.
abbrev shared : Kernel
shared = record two_tasks { mem = λ a. if a == 704 then 3 else (if a == 700 then 1 else 0) }

semaphore_increment_lem_example :
    (k' : Kernel) × (semaphore_increment three_slots counting shared 704 2
      ≡ some (
        k',
        if ltb (find_first 2 0 (λ t. not (counting.lost t))) 2
            then error_none
            else error_resource_locked_indefinetly,
      ))
    × (k'.mem 704 ≡ (
        if ltb (find_first 2 0 (λ t. not (counting.lost t))) 2
        then shared.mem 704 - shared.mem 704 % 256 + u8 (shared.mem 704 % 256 + 1)
        else shared.mem 704))
semaphore_increment_lem_example =
    semaphore_increment_lem three_slots counting shared 704 2 (omega arith) (λ turn m. refl)

semaphore_decrement_lem_example :
    (k' : Kernel) × (semaphore_decrement three_slots counting shared 704 2
      ≡ some (
        k',
        if (if shared.mem 704 % 256 == 0
              then ltb 0 2
              else ltb (find_first 2 0 (λ t. not (counting.lost t))) 2)
            then error_none
            else error_resource_locked_indefinetly,
      ))
    × (k'.mem 704 ≡ (
        if not (shared.mem 704 % 256 == 0) && ltb (find_first 2 0 (λ t. not (counting.lost t))) 2
        then shared.mem 704 - 1
        else shared.mem 704))
semaphore_decrement_lem_example =
    semaphore_decrement_lem three_slots counting shared 704 2 (omega arith) (λ turn m. refl)

spin_lock-IsEnded_example :
    (k' : Kernel) × (error : ℕ) × (spin_lock three_slots busy 4 shared 700 3 ≡ some (k', error))
    × IsEnded k' 700 error
spin_lock-IsEnded_example =
    spin_lock-IsEnded three_slots busy shared 700 3
      (λ turn m. ((omega arith, omega arith), omega arith)) (omega arith, omega arith)

spin_lock_released_example :
    (k' : Kernel) × (spin_lock three_slots busy 4 shared 700 3 ≡ some (k', error_none))
    × Holds k' 700
spin_lock_released_example =
    spin_lock_released three_slots busy shared 700 3 1
      (λ turn m. ((omega arith, omega arith), omega arith)) (omega arith, omega arith) (omega arith)
      (λ m. refl) refl

mutex_lock_twice_example :
    let first = (mutex_lock false shared 708).0 in
    let second = mutex_lock false (record first { current_task = 0 }) 708 in
    (first.mem 708 ≡ shared.task_id 1)
    × (second.1 ≡ (if shared.task_id 1 % 256 == 0 then 0 else 1))
    × (second.0.mem 708
        ≡ (if shared.task_id 1 % 256 == 0 then shared.task_id 0 else shared.task_id 1))
mutex_lock_twice_example = mutex_lock_twice shared 708 0 refl

-- Task 1 asks for the permissions at 712; the base mutex is at 600, the static variables at 716 and 720.
abbrev asking : Kernel
asking = record two_tasks {
  maxp_level = 127;
  mem = λ a. if a == 600 then 1 else (if a == 712 then 0x60 else 0);
}

base_run-base_round_example :
    (fr fr' : Frame) × (base_run three_slots asking 712 ≡ returns fr)
    × (base_round three_slots 3 (record fr.kernel { current_task = 0 }) 716 720 ≡ returns fr')
    × (fr'.error ≡ error_none)
    × IsServed asking fr'.kernel 1 712 3
base_run-base_round_example =
    base_run-base_round three_slots asking 712 3 716 720
      (record {
        caller = omega arith;
        bound = omega arith;
        real = omega arith;
        unique = λ j l e. ground arith;
        self_kill = refl;
        no_promotion = refl;
        base_mutex = refl;
        nobody_waits = λ j l h. ground arith;
        statics = omega arith;
        apart = (omega arith, omega arith, omega arith, omega arith, omega arith);
      })
      (omega arith)
