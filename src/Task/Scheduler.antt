-- ===== src/Task/Scheduler.antt =====
-- kernel/task/scheduler.c: a table of 64 tasks, switched round robin by the timer interrupt.
-- The index -1 of `current_task` is `none`. What `printf` writes is not part of the state.
pub mod RoundRobin
pub mod Fair
pub mod Create
mod Tests
use nedoos.Prelude.{
  ℕ, zero, suc, ◌+◌, ◌-◌, ◌*◌, ◌%◌, Bool, true, false, not, ◌||◌, List, [], ◌∷◌, Option, none, some,
  length, update, u32, ◌==◌, if◌then◌else◌,
}
use nedoos.Task.Search.{go_round, first_from}

abbrev pub max_tasks : ℕ
max_tasks = 64

abbrev pub stack_size : ℕ
stack_size = 4096

-- 0 = dead, 1 = ready, 2 = running
abbrev pub dead : ℕ
dead = 0

abbrev pub ready : ℕ
ready = 1

abbrev pub running : ℕ
running = 2

-- `task_t`. Of the stack, `frame` is what lies above the stack pointer, from low to high. The fields
-- `eip` and `page_directory` are never used.
pub record Task : Type 0 where
  pub id : ℕ
  pub esp : ℕ
  pub ebp : ℕ
  pub frame : List ℕ
  pub state : ℕ

pub record Scheduler : Type 0 where
  pub tasks : ℕ → Task
  pub current_task : Option ℕ
  pub next_task_id : ℕ

abbrev pub set_state : (ℕ → Task) → ℕ → ℕ → ℕ → Task
set_state ts i v = update ts i (record (ts i) { state = v })

abbrev pub is_ready : (ℕ → Task) → ℕ → Bool
is_ready ts i = (ts i).state == ready

-- The search of `scheduler_switch`: where `current_task` stands after its 64 rounds. The first round
-- goes from -1 to 0.
pub seek : (ℕ → Task) → Option ℕ → ℕ
unfolding go_round
seek ts none = if is_ready ts 0 then 0 else go_round max_tasks (is_ready ts) 63 0
seek ts (some i) = go_round max_tasks (is_ready ts) max_tasks i

-- The stack pointers that `task_switch` is called with, if it is called.
abbrev pub Event : Type 0
Event = Option (ℕ × ℕ)

-- What follows the search. Writing `tasks[-1].state` is a fault.
pub switch_to : Scheduler → Option ℕ → ℕ → Option (Scheduler × Event)
switch_to s none i =
    if not (is_ready s.tasks i) then some (record s { current_task = none }, none) else none
switch_to s (some old) i =
    if (i == old) || not (is_ready s.tasks i)
    then some (record s { current_task = some old }, none)
    else some (
      record s { tasks = set_state (set_state s.tasks old ready) i running; current_task = some i },
      some ((s.tasks old).esp, (s.tasks i).esp),
    )

pub scheduler_switch : Scheduler → Option (Scheduler × Event)
unfolding seek switch_to
scheduler_switch s = switch_to s s.current_task (seek s.tasks s.current_task)

-- The first dead slot.
pub free_slot : (ℕ → Task) → Option ℕ
unfolding first_from
free_slot ts = first_from (λ i. (ts i).state == dead) max_tasks 0

-- The ten words that are pushed: EIP, EFLAGS, EAX, ECX, EDX, EBX, ESP, EBP, ESI, EDI.
abbrev pub initial_frame : ℕ → List ℕ
initial_frame entry = 0 ∷ 0 ∷ 0 ∷ 0 ∷ 0 ∷ 0 ∷ 0 ∷ 0 ∷ 0x200 ∷ entry ∷ []

-- `stack i` is the address of `tasks[i].stack`.
module _ (stack : ℕ → ℕ) where
  abbrev pub fresh_task : Scheduler → ℕ → ℕ → Task
  fresh_task s entry i =
      let esp = u32 (stack i + stack_size - 40) in
      record {
        id = s.next_task_id;
        esp = esp;
        ebp = esp;
        frame = initial_frame entry;
        state = ready;
      }

  -- What follows the search for a slot. The result `none` is -1.
  unfoldable pub create_in : Scheduler → ℕ → Option ℕ → Scheduler × Option ℕ
  create_in s entry none = (s, none)
  create_in s entry (some i) = (
    record s { tasks = update s.tasks i (fresh_task s entry i); next_task_id = s.next_task_id + 1 },
    some s.next_task_id,
  )

  pub scheduler_create_task : Scheduler → ℕ → Scheduler × Option ℕ
  unfolding free_slot create_in
  scheduler_create_task s entry = create_in s entry (free_slot s.tasks)

-- `memset(tasks, 0, sizeof(tasks))`
pub scheduler_init : Scheduler → Scheduler
scheduler_init s = record s {
  tasks = λ i. record { id = 0; esp = 0; ebp = 0; frame = []; state = dead };
  current_task = none;
}
