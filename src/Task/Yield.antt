-- ===== src/Task/Yield.antt =====
-- kernel/task/task.c: a table of 16 tasks that yield the processor to one another. The copies
-- kernel/task.c and task.c differ in the words that they push.
-- The index -1 of `current_task` is `none`. What is printed is not part of the state.
pub mod Idle
pub mod Hand
mod Tests
use nedoos.Prelude.{
  ℕ, zero, suc, ◌+◌, ◌-◌, ◌*◌, ◌%◌, Bool, true, false, not, ◌||◌, List, [], ◌∷◌, Option, none, some,
  take, update, u32, ltb, ◌==◌, if◌then◌else◌,
}
use nedoos.Task.Search.{go_round, first_from}

abbrev pub max_tasks : ℕ
max_tasks = 16

abbrev pub stack_size : ℕ
stack_size = 4096

abbrev pub task_free : ℕ
task_free = 0

abbrev pub task_ready : ℕ
task_ready = 1

abbrev pub task_running : ℕ
task_running = 2

-- The fields of `task_t` that the code uses; `frame` is what lies above the stack pointer. A name is
-- its characters without the final zero.
pub record Task : Type 0 where
  pub state : ℕ
  pub pid : ℕ
  pub esp : ℕ
  pub eip : ℕ
  pub name : List ℕ
  pub frame : List ℕ

pub record Tasks : Type 0 where
  pub tasks : ℕ → Task
  pub current_task : Option ℕ
  pub next_pid : ℕ

abbrev pub set_state : (ℕ → Task) → ℕ → ℕ → ℕ → Task
set_state ts i v = update ts i (record (ts i) { state = v })

-- for (i = 0; i < MAX_TASKS; i++) tasks[i].state = TASK_FREE
pub task_init : Tasks → Tasks
task_init s = record s {
  tasks = λ i. if ltb i max_tasks then record (s.tasks i) { state = task_free } else s.tasks i;
}

abbrev pub initial_frame : ℕ → List ℕ
initial_frame task_exit = 0 ∷ 0 ∷ 0 ∷ 0 ∷ 0 ∷ 0 ∷ 0 ∷ 0 ∷ 0x200 ∷ task_exit ∷ []

-- `stack i` is the address of `tasks[i].stack`, and `task_exit` that of the function.
module _ (stack : ℕ → ℕ) (task_exit : ℕ) where
  abbrev pub fresh_task : Tasks → ℕ → List ℕ → ℕ → Task
  fresh_task s entry name i = record {
    state = task_ready;
    pid = s.next_pid;
    esp = u32 (stack i + stack_size - 40);
    eip = entry;
    name = take 31 name;
    frame = initial_frame task_exit;
  }

  pub create_in : Tasks → ℕ → List ℕ → Option ℕ → Tasks × Option ℕ
  create_in s entry name none = (s, none)
  create_in s entry name (some slot) = (
    record s {
      tasks = update s.tasks slot (fresh_task s entry name slot);
      next_pid = s.next_pid + 1;
    },
    some s.next_pid,
  )

  -- The result `none` is -1.
  pub task_create : Tasks → ℕ → List ℕ → Tasks × Option ℕ
  unfolding create_in first_from
  task_create s entry name =
      create_in s entry name (first_from (λ i. (s.tasks i).state == task_free) max_tasks 0)

abbrev pub is_ready : (ℕ → Task) → ℕ → Bool
is_ready ts i = (ts i).state == task_ready

-- The two indices of a switch, if there is one.
abbrev pub Event : Type 0
Event = Option (ℕ × ℕ)

-- What follows the search, with the table in which the current task is ready.
pub yield_to : Tasks → (ℕ → Task) → ℕ → ℕ → Tasks × Event
yield_to s ts current next =
    if (next == current) || not (is_ready ts next)
    then (record s { tasks = set_state ts current task_running }, none)
    else (record s { tasks = set_state ts next task_running }, some (current, next))

pub yield_from : Tasks → Option ℕ → Tasks × Event
unfolding yield_to go_round
yield_from s none = (s, none)
yield_from s (some current) =
    let ts = set_state s.tasks current task_ready in
    yield_to s ts current (go_round max_tasks (is_ready ts) max_tasks current)

-- `task_yield` up to its call of `task_switch`.
pub task_yield : Tasks → Tasks × Event
unfolding yield_from
task_yield s = yield_from s s.current_task

-- The assignment after that call, made when the task that yielded gets the processor back.
pub resume : Tasks → ℕ → Tasks
resume s next = record s { current_task = some next }

pub release_current : Tasks → Option ℕ → Tasks
release_current s none = s
release_current s (some current) = record s { tasks = set_state s.tasks current task_free }

-- `task_exit`: the current slot is freed, and then it yields without end. This is the first round.
pub task_exit_round : Tasks → Tasks × Event
unfolding release_current task_yield
task_exit_round s = task_yield (release_current s s.current_task)
