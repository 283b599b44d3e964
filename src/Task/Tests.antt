-- ===== src/Task/Tests.antt =====
-- A switch to a task that has just been created.
use nedoos.Prelude.{ℕ, ◌*◌, ◌≡◌, refl, List, [], none, some, arith}
use nedoos.Task.Scheduler.{Scheduler, dead, create_in}
use nedoos.Task.Scheduler.Create.{Creates}
use nedoos.Task.Switch.{Registers, restore, restore-created}

abbrev empty : Scheduler
empty = record {
  tasks = λ i. record { id = 0; esp = 0; ebp = 0; frame = []; state = dead };
  current_task = none;
  next_task_id = 1;
}

abbrev bases : ℕ → ℕ
bases i = 4096 * i

empty-Creates : Creates bases empty 0x1000 0 (create_in bases empty 0x1000 (some 0))
unfolding create_in
empty-Creates = record {
  in_range = omega arith;
  was_dead = refl;
  first = λ j h. absurd (omega (arith, h));
  id = refl;
  created = refl;
  others = λ j n. ground arith;
  current = refl;
  counter = refl;
}

restore-created_example :
    (regs : Registers) × (rest : List ℕ) × (restore
        ((create_in bases empty 0x1000 (some 0)).0.tasks 0).frame
      ≡ some (regs, rest))
    × (regs.eip ≡ 0)
restore-created_example =
    restore-created bases empty 0x1000 0 (create_in bases empty 0x1000 (some 0)) empty-Creates
