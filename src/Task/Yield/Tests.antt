-- ===== src/Task/Yield/Tests.antt =====
-- A table of two tasks, and the theorems applied to it.
use nedoos.Prelude.{◌*◌, ◌≡◌, refl, List, [], ◌∷◌, none, some, ◌==◌, if◌then◌else◌}
use nedoos.Task.Yield.{Task, Tasks, task_free, task_ready, task_running, task_yield}
use nedoos.Task.Yield.Idle.{Call, create, yield, run, NoSwitch, run-idle}

abbrev blank : Task
blank = record { state = task_free; pid = 0; esp = 0; eip = 0; name = []; frame = [] }

abbrev started : Tasks
started = record {
  tasks = λ i.
      if i == 3
      then record blank { state = task_running; pid = 1 }
      else if i == 1
      then record blank { state = task_ready; pid = 2 }
      else blank;
  current_task = some 3;
  next_pid = 3;
}

abbrev empty : Tasks
empty = record { tasks = λ i. blank; current_task = none; next_pid = 1 }

switches : (task_yield started).1 ≡ some (3, 1)
unfolding task_yield
switches = refl

abbrev calls : List Call
calls = create 0x1000 (65 ∷ []) ∷ create 0x2000 (66 ∷ []) ∷ yield ∷ yield ∷ []

run-idle_example :
    ((run (λ i. 4096 * i) 0x100 empty calls).0.current_task ≡ none)
    × NoSwitch (λ i. 4096 * i) 0x100 (run (λ i. 4096 * i) 0x100 empty calls).1
run-idle_example = run-idle (λ i. 4096 * i) 0x100 calls empty refl
