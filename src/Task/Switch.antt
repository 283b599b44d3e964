-- ===== src/Task/Switch.antt =====
-- kernel/task/switch.S: the registers that `task_switch` leaves on the stack of the task that gives
-- up the processor, and takes from the stack of the task that gets it.
use nedoos.Prelude.{ℕ, ◌≡◌, refl, List, [], ◌∷◌, Option, none, some, ap}
use nedoos.Task.Scheduler.{Task, Scheduler}
use nedoos.Task.Scheduler.Create.{Creates}

pub record Registers : Type 0 where
  pub edi : ℕ
  pub esi : ℕ
  pub ebx : ℕ
  pub ebp : ℕ
  pub eip : ℕ

-- The return address is on the stack already. Low addresses come first.
pub save : Registers → List ℕ → List ℕ
save r stack = r.edi ∷ r.esi ∷ r.ebx ∷ r.ebp ∷ r.eip ∷ stack

-- popl %edi; popl %esi; popl %ebx; popl %ebp; ret
pub restore : List ℕ → Option (Registers × List ℕ)
restore (edi ∷ esi ∷ ebx ∷ ebp ∷ eip ∷ stack) =
    some (record { edi = edi; esi = esi; ebx = ebx; ebp = ebp; eip = eip }, stack)
restore _ = none

-- A task that gave up the processor goes on where it was, with its registers.
pub restore-save : (r : Registers) (stack : List ℕ) → restore (save r stack) ≡ some (r, stack)
unfolding restore save
restore-save r stack = refl

-- A task that `scheduler_create_task` made does not begin at its entry: the first switch to it
-- takes the word of EBX, which is 0, for the return address.
pub restore-created :
    (stack : ℕ → ℕ) (s : Scheduler) (entry i : ℕ) (r : Scheduler × Option ℕ)
    → Creates stack s entry i r
    → (regs : Registers) × (rest : List ℕ) × (restore (r.0.tasks i).frame ≡ some (regs, rest))
      × (regs.eip ≡ 0)
unfolding restore
restore-created stack s entry i r c = (
  record { edi = 0; esi = 0; ebx = 0; ebp = 0; eip = 0 },
  0 ∷ 0 ∷ 0 ∷ 0x200 ∷ entry ∷ [],
  ap (λ (t : Task). restore t.frame) c.created,
  refl,
)
