-- ===== src/Task/Yield/Idle.antt =====
-- The table before any task runs: `current_task` starts at -1, and only `task_yield` ever sets it.
use nedoos.Prelude.{ℕ, ◌≡◌, refl, ap, sym, ◌∙◌, List, [], ◌∷◌, Option, none, some, subst}
use nedoos.Task.Yield.{Tasks, Event, create_in, task_create, yield_from, task_yield, resume}

-- What the kernel calls after `task_init`.
pub data Call : Type 0 where
  create : ℕ → List ℕ → Call
  yield : Call

module _ (stack : ℕ → ℕ) (task_exit : ℕ) where
  -- A call that switches is followed by `resume`, made by the task that is switched to.
  pub resume_at : Tasks × Event → Tasks × Event
  unfolding resume
  resume_at (s, none) = (s, none)
  resume_at (s, some (c, n)) = (resume s n, some (c, n))

  pub step : Tasks → Call → Tasks × Event
  unfolding task_create resume_at task_yield
  step s (create entry name) = ((task_create stack task_exit s entry name).0, none)
  step s yield = resume_at (task_yield s)

  -- The last state, and all the switches in order.
  pub run : Tasks → List Call → Tasks × List Event
  unfolding step
  run s [] = (s, [])
  run s (c ∷ cs) = let r = step s c in let rest = run r.0 cs in (rest.0, r.1 ∷ rest.1)

  current-create_in :
      (s : Tasks) (entry : ℕ) (name : List ℕ) (o : Option ℕ)
      → (create_in stack task_exit s entry name o).0.current_task ≡ s.current_task
  unfolding create_in
  current-create_in s entry name none = refl
  current-create_in s entry name (some i) = refl

  current-create :
      (s : Tasks) (entry : ℕ) (name : List ℕ)
      → (task_create stack task_exit s entry name).0.current_task ≡ s.current_task
  unfolding task_create
  current-create s entry name = current-create_in s entry name _

  yield-idle : (s : Tasks) → s.current_task ≡ none → task_yield s ≡ (s, none)
  unfolding task_yield yield_from
  yield-idle s e = ap (yield_from s) e

  step-idle :
      (s : Tasks) (c : Call)
      → s.current_task ≡ none
      → ((step s c).0.current_task ≡ none) × ((step s c).1 ≡ none)
  unfolding step resume_at
  step-idle s (create entry name) e = (current-create s entry name ∙ e, refl)
  step-idle s yield e = rw (yield-idle s e) (e, refl)

  pub data NoSwitch : List Event → Type 0 where
    end : NoSwitch []
    and_no : (es : List Event) → NoSwitch es → NoSwitch (none ∷ es)

  -- While `current_task` is -1, whatever tasks are created and however often they are to yield, no
  -- switch happens and `current_task` stays -1.
  pub run-idle :
      (cs : List Call) (s : Tasks)
      → s.current_task ≡ none
      → ((run s cs).0.current_task ≡ none) × NoSwitch (run s cs).1
  unfolding run
  run-idle [] s e = (e, end)
  run-idle (c ∷ cs) s e =
      let h = step-idle s c e in
      let rest = run-idle cs (step s c).0 h.0 in
      (rest.0, subst (λ v. NoSwitch (v ∷ (run (step s c).0 cs).1)) (sym h.1) (and_no _ rest.1))
