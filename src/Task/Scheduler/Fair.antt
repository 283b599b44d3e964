-- ===== src/Task/Scheduler/Fair.antt =====
-- Every ready task gets the processor.
use nedoos.Prelude.{ℕ, zero, suc, ◌≤◌, ◌≡◌, Option, some, ◌>>=◌}
use nedoos.Task.Scheduler.{Scheduler, scheduler_switch}
use nedoos.Task.Scheduler.RoundRobin.{IsRunning}

-- That many interrupts of the timer.
pub switches : ℕ → Scheduler → Option Scheduler
switches zero s = some s
switches (suc n) s = scheduler_switch s >>= λ r. switches n r.0

-- After so many switches, all without a fault, the task is the one that runs.
pub record Gets (s : Scheduler) (t bound : ℕ) : Type 0 where
  pub rounds : ℕ
  pub in_time : rounds ≤ bound
  pub after : Scheduler
  pub returns : switches rounds s ≡ some after
  pub now : IsRunning after t
