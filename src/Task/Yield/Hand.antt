-- ===== src/Task/Yield/Hand.antt =====
-- `task_yield` with a current task, and what `task_exit` makes of it.
use nedoos.Prelude.{
  ℕ, ◌+◌, ◌-◌, ◌%◌, ◌<◌, ◌≡◌, ◌≢◌, ◌⊎◌, inl, inr, refl, ap, sym, ◌∙◌, true, false, none, some,
  arith, ==→eq, ==→ne, eq→==, ne→==, ℕ_discrete, subst,
}
use nedoos.Task.Search.{place, NoneAt, RoundResult, found, missed, go_round, go_round-result}
use nedoos.Task.Yield.{
  Task, Tasks, Event, max_tasks, task_free, task_ready, task_running, set_state, is_ready, yield_to,
  yield_from, task_yield, release_current, task_exit_round,
}

-- The current task `c` gives way to `n`, the first ready task after it; `current_task` stays.
pub record GivesWay (s : Tasks) (c k : ℕ) (r : Tasks × Event) : Type 0 where
  pub chosen : (s.tasks (place max_tasks c k)).state ≡ task_ready
  pub other : place max_tasks c k ≢ c
  pub least : (j : ℕ) → j < k → (s.tasks (place max_tasks c j)).state ≢ task_ready
  pub event : r.1 ≡ some (c, place max_tasks c k)
  pub current : r.0.current_task ≡ some c
  pub waits : (r.0.tasks c).state ≡ task_ready
  pub runs : (r.0.tasks (place max_tasks c k)).state ≡ task_running
  pub kept : (j : ℕ) → j ≢ c → j ≢ place max_tasks c k → r.0.tasks j ≡ s.tasks j

-- No other task is ready, and the current task goes on.
pub record GoesOn (s : Tasks) (c : ℕ) (r : Tasks × Event) : Type 0 where
  pub alone : (j : ℕ) → j < max_tasks → j ≢ c → (s.tasks j).state ≢ task_ready
  pub event : r.1 ≡ none
  pub current : r.0.current_task ≡ some c
  pub runs : (r.0.tasks c).state ≡ task_running
  pub kept : (j : ℕ) → j ≢ c → r.0.tasks j ≡ s.tasks j

-- The table in which the current task has been made ready.
abbrev offered : Tasks → ℕ → ℕ → Task
offered s c = set_state s.tasks c task_ready

offered_ne : (s : Tasks) (c j : ℕ) → j ≢ c → offered s c j ≡ s.tasks j
offered_ne s c j h = rw (ne→== j c h) refl

-- The indices after `c`, up to but without `c` itself, are all the others.
all_others :
    (s : Tasks) (c : ℕ)
    → c < max_tasks
    → NoneAt max_tasks (is_ready (offered s c)) c 15
    → (j : ℕ) → j < max_tasks
    → j ≢ c
    → (s.tasks j).state ≢ task_ready
all_others s c h n j hj ne e =
    let k : ℕ = (j + 15 - c) % 16 in
    let here : place max_tasks c k ≡ j = omega arith in
    let free : is_ready (offered s c) j ≡ false =
      ap (is_ready (offered s c)) (sym here) ∙ n k (omega arith) in
    ==→ne _ task_ready free (ap (λ (t : Task). t.state) (offered_ne s c j ne) ∙ e)

goes_on :
    (s : Tasks) (c : ℕ)
    → s.current_task ≡ some c
    → ((j : ℕ) → j < max_tasks → j ≢ c → (s.tasks j).state ≢ task_ready)
    → GoesOn s c (yield_to s (offered s c) c c)
unfolding yield_to
goes_on s c e a = record {
  alone = a;
  event = ground arith;
  current = ground arith;
  runs = ground arith;
  kept = λ j h. ground (arith, offered_ne s c j h);
}

-- The state and the event of a switch from `c` to `n`.
switched :
    (s : Tasks) (c n : ℕ)
    → n ≢ c
    → is_ready (offered s c) n ≡ true
    → yield_to s (offered s c) c n
      ≡ (record s { tasks = set_state (offered s c) n task_running }, some (c, n))
unfolding yield_to
switched s c n h p = rw (ne→== n c h) (ground (arith, p))

gives_way :
    (s : Tasks) (c k : ℕ)
    → s.current_task ≡ some c
    → place max_tasks c k ≢ c
    → is_ready (offered s c) (place max_tasks c k) ≡ true
    → ((j : ℕ) → j < k → (s.tasks (place max_tasks c j)).state ≢ task_ready)
    → GivesWay s c k (yield_to s (offered s c) c (place max_tasks c k))
gives_way s c k e h p l =
    let n : ℕ = place max_tasks c k in
    let chosen : (s.tasks n).state ≡ task_ready =
      sym (ap (λ (t : Task). t.state) (offered_ne s c n h)) ∙ ==→eq _ task_ready p in
    rw (switched s c n h p) (record {
      chosen = chosen;
      other = h;
      least = l;
      event = refl;
      current = e;
      waits = rw (ne→== c n (λ q. h (sym q)), eq→== c c refl) refl;
      runs = rw (eq→== n n refl) refl;
      kept = λ j a b. rw (ne→== j n b, ne→== j c a) refl;
    })

-- The search finds a ready task, if only the current one.
yield_found :
    (s : Tasks) (c r : ℕ)
    → s.current_task ≡ some c
    → c < max_tasks
    → RoundResult max_tasks (is_ready (offered s c)) max_tasks c r
    → ((k : ℕ) × GivesWay s c k (yield_to s (offered s c) c r))
      ⊎ GoesOn s c (yield_to s (offered s c) c r)
yield_found s c r e h (found k a p n q) = elim (ℕ_discrete (place max_tasks c k) c) [
  | yes own ↦ inr (rw (q ∙ own) (goes_on s c e (all_others s c h (λ j b. n j (omega arith)))))
  | no other ↦ inl (k, rw q (gives_way s c k e other p (λ j b. before j b (n j b))))
]
  where
    before :
        (j : ℕ)
        → j < k
        → is_ready (offered s c) (place max_tasks c j) ≡ false
        → (s.tasks (place max_tasks c j)).state ≢ task_ready
    before j b f m =
        let away : place max_tasks c j ≢ c = omega arith in
        ==→ne _ task_ready f (ap (λ (t : Task). t.state) (offered_ne s c _ away) ∙ m)
yield_found s c r e h (missed n q) =
    let own : place max_tasks c 15 ≡ c = omega arith in
    let clash : is_ready (offered s c) c ≡ false =
      ap (is_ready (offered s c)) (sym own) ∙ n 15 (omega arith) in
    absurd (==→ne _ task_ready clash (rw (eq→== c c refl) refl))

yield-current :
    (s : Tasks) (c : ℕ)
    → s.current_task ≡ some c
    → task_yield s
      ≡ yield_to s (offered s c) c (go_round max_tasks (is_ready (offered s c)) max_tasks c)
unfolding task_yield yield_from
yield-current s c e = ap (yield_from s) e

pub task_yield_cases :
    (s : Tasks) (c : ℕ)
    → s.current_task ≡ some c
    → c < max_tasks
    → ((k : ℕ) × GivesWay s c k (task_yield s)) ⊎ GoesOn s c (task_yield s)
task_yield_cases s c e h =
    rw (yield-current s c e)
      (yield_found s c _ e h (go_round-result max_tasks (is_ready (offered s c)) max_tasks c h))

state-yield :
    (s : Tasks) (c : ℕ)
    → s.current_task ≡ some c
    → c < max_tasks
    → ((task_yield s).0.tasks c).state ≢ task_free
state-yield s c e h z = elim (task_yield_cases s c e h) [
  | inl (k, g) ↦ absurd (omega (arith, g.waits))
  | inr g ↦ absurd (omega (arith, g.runs))
]

-- `task_exit` does not free the slot: its first `task_yield` makes the task ready or running again.
pub task_exit_keeps_slot :
    (s : Tasks) (c : ℕ)
    → s.current_task ≡ some c
    → c < max_tasks
    → ((task_exit_round s).0.tasks c).state ≢ task_free
unfolding task_exit_round release_current
task_exit_keeps_slot s c e h =
    subst (λ o. ((task_yield (release_current s o)).0.tasks c).state ≢ task_free) (sym e)
      (state-yield (release_current s (some c)) c e h)
