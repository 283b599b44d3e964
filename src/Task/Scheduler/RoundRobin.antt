-- ===== src/Task/Scheduler/RoundRobin.antt =====
-- `scheduler_switch` with a running task: who gets the processor.
use nedoos.Prelude.{ℕ, ◌<◌, ◌≡◌, ◌≢◌, ◌⊎◌, inl, inr, refl, ap, Option, none, some, arith, ==→eq}
use nedoos.Task.Search.{place, NoneAt, RoundResult, found, missed, go_round, go_round-result}
use nedoos.Task.Scheduler.{
  Scheduler, Event, max_tasks, ready, running, is_ready, set_state, seek, switch_to,
  scheduler_switch,
}

-- The task `i` is the current one and the only one that is marked as running.
pub record IsRunning (s : Scheduler) (i : ℕ) : Type 0 where
  pub current : s.current_task ≡ some i
  pub in_range : i < max_tasks
  pub marked : (s.tasks i).state ≡ running
  pub alone : (j : ℕ) → j ≢ i → (s.tasks j).state ≢ running

-- The task `i` hands over to the task `n`.
pub record HandsOver (s : Scheduler) (i n : ℕ) (r : Option (Scheduler × Event)) : Type 0 where
  pub after : Scheduler
  pub returns : r ≡ some (after, some ((s.tasks i).esp, (s.tasks n).esp))
  pub now : IsRunning after n
  pub waits : (after.tasks i).state ≡ ready
  pub others : (j : ℕ) → j ≢ i → j ≢ n → after.tasks j ≡ s.tasks j

hand_over :
    (s : Scheduler) (i n : ℕ)
    → IsRunning s i
    → n < max_tasks
    → (s.tasks n).state ≡ ready
    → HandsOver s i n (switch_to s (some i) n)
unfolding switch_to
hand_over s i n v h e = record {
  after = record s {
    tasks = set_state (set_state s.tasks i ready) n running;
    current_task = some n;
  };
  returns = ground (arith, v.marked);
  now = record {
    current = refl;
    in_range = h;
    marked = ground arith;
    alone = λ j q. ground (arith, v.alone j);
  };
  waits = ground (arith, v.marked);
  others = λ j p q. ground arith;
}

stay : (s : Scheduler) (i : ℕ) → IsRunning s i → switch_to s (some i) i ≡ some (s, none)
unfolding switch_to
stay s i v = ground (arith, v.current)

round_robin :
    (s : Scheduler) (i r : ℕ)
    → IsRunning s i
    → RoundResult max_tasks (is_ready s.tasks) max_tasks i r
    → ((k : ℕ) × NoneAt max_tasks (is_ready s.tasks) i k
        × HandsOver s i (place max_tasks i k) (switch_to s (some i) r))
      ⊎ (NoneAt max_tasks (is_ready s.tasks) i max_tasks
          × (switch_to s (some i) r ≡ some (s, none)))
round_robin s i r v (found k h p n e) =
    inl (k, n, rw e (hand_over s i _ v (omega arith) (==→eq _ ready p)))
round_robin s i r v (missed n e) =
    let here : r ≡ i = omega (arith, e, v.in_range) in inr (n, rw here (stay s i v))

-- The call with its current task written out.
switch-running :
    (s : Scheduler) (i : ℕ)
    → s.current_task ≡ some i
    → scheduler_switch s ≡ switch_to s (some i) (go_round max_tasks (is_ready s.tasks) max_tasks i)
unfolding scheduler_switch seek
switch-running s i e = ap (λ c. switch_to s c (seek s.tasks c)) e

-- The processor goes to the first ready task after the running one, going round the table; the two
-- states change places and no other task is touched. With no ready task nothing changes.
pub scheduler_switch_round_robin :
    (s : Scheduler) (i : ℕ)
    → IsRunning s i
    → ((k : ℕ) × NoneAt max_tasks (is_ready s.tasks) i k
        × HandsOver s i (place max_tasks i k) (scheduler_switch s))
      ⊎ (NoneAt max_tasks (is_ready s.tasks) i max_tasks × (scheduler_switch s ≡ some (s, none)))
scheduler_switch_round_robin s i v =
    rw (switch-running s i v.current)
      (round_robin s i _ v (go_round-result max_tasks (is_ready s.tasks) max_tasks i v.in_range))
