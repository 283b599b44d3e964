-- ===== src/Task/Scheduler/Tests.antt =====
-- A table with one running task and two that are ready, and the theorems applied to it.
use nedoos.Prelude.{ℕ, ◌*◌, ◌≡◌, ◌≢◌, ◌<◌, ◌⊎◌, refl, [], none, some, arith, ◌==◌, if◌then◌else◌}
use nedoos.Task.Search.{NoneAt, place}
use nedoos.Task.Scheduler.{
  Task, Scheduler, max_tasks, dead, ready, running, is_ready, scheduler_switch,
  scheduler_create_task,
}
use nedoos.Task.Scheduler.RoundRobin.{IsRunning, HandsOver, scheduler_switch_round_robin}
use nedoos.Task.Scheduler.Create.{Creates, scheduler_create_task_cases}

abbrev blank : Task
blank = record { id = 0; esp = 0; ebp = 0; frame = []; state = dead }

abbrev table : ℕ → Task
table i =
    if i == 5
    then record blank { id = 1; esp = 0x5000; state = running }
    else if i == 2
    then record blank { id = 2; esp = 0x2000; state = ready }
    else blank

abbrev busy : Scheduler
busy = record { tasks = table; current_task = some 5; next_task_id = 3 }

abbrev begun : Scheduler
begun = record { tasks = table; current_task = none; next_task_id = 3 }

busy-IsRunning : IsRunning busy 5
busy-IsRunning = record {
  current = refl;
  in_range = omega arith;
  marked = refl;
  alone = λ j h. ground arith;
}

scheduler_switch_round_robin_example :
    ((k : ℕ) × NoneAt max_tasks (is_ready busy.tasks) 5 k
      × HandsOver busy 5 (place max_tasks 5 k) (scheduler_switch busy))
    ⊎ (NoneAt max_tasks (is_ready busy.tasks) 5 max_tasks
        × (scheduler_switch busy ≡ some (busy, none)))
scheduler_switch_round_robin_example = scheduler_switch_round_robin busy 5 busy-IsRunning

scheduler_create_task_cases_example :
    ((i : ℕ) × Creates
        (λ i. 4096 * i)
        busy
        0x1000
        i
        (scheduler_create_task (λ i. 4096 * i) busy 0x1000))
    ⊎ (((j : ℕ) → j < max_tasks → (busy.tasks j).state ≢ dead)
        × (scheduler_create_task (λ i. 4096 * i) busy 0x1000 ≡ (busy, none)))
scheduler_create_task_cases_example = scheduler_create_task_cases (λ i. 4096 * i) busy 0x1000
