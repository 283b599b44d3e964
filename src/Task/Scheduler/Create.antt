-- ===== src/Task/Scheduler/Create.antt =====
-- `scheduler_create_task`, and the first call of `scheduler_switch` after it.
use nedoos.Prelude.{
  ℕ, ◌+◌, ◌<◌, ◌≡◌, ◌≢◌, ◌⊎◌, inl, inr, refl, ap, sym, ◌∙◌, Option, none, some, ◌==◌, arith, ==→eq,
  ==→ne, ℕ_discrete,
}
use nedoos.Task.Search.{FirstResult, found, missed, first_from-result}
use nedoos.Task.Scheduler.{
  Task, Scheduler, max_tasks, dead, scheduler_init, free_slot, fresh_task, create_in,
  scheduler_create_task,
}

-- Live tasks have distinct identifiers, all of them given out before.
pub record IsNumbered (s : Scheduler) : Type 0 where
  pub below : (i : ℕ) → i < max_tasks → (s.tasks i).state ≢ dead → (s.tasks i).id < s.next_task_id
  pub distinct :
      (i j : ℕ)
      → i < max_tasks
      → j < max_tasks
      → (s.tasks i).state ≢ dead
      → (s.tasks j).state ≢ dead
      → (s.tasks i).id ≡ (s.tasks j).id
      → i ≡ j

module _ (stack : ℕ → ℕ) where
  -- The task goes to the slot `i`.
  pub record Creates (s : Scheduler) (entry i : ℕ) (r : Scheduler × Option ℕ) : Type 0 where
    pub in_range : i < max_tasks
    pub was_dead : (s.tasks i).state ≡ dead
    pub first : (j : ℕ) → j < i → (s.tasks j).state ≢ dead
    pub id : r.1 ≡ some s.next_task_id
    pub created : r.0.tasks i ≡ fresh_task stack s entry i
    pub others : (j : ℕ) → j ≢ i → r.0.tasks j ≡ s.tasks j
    pub current : r.0.current_task ≡ s.current_task
    pub counter : r.0.next_task_id ≡ s.next_task_id + 1

  create_in-cases :
      (s : Scheduler) (entry : ℕ) (o : Option ℕ)
      → FirstResult (λ i. (s.tasks i).state == dead) 0 max_tasks o
      → ((i : ℕ) × Creates s entry i (create_in stack s entry o))
        ⊎ (((j : ℕ) → j < max_tasks → (s.tasks j).state ≢ dead)
            × (create_in stack s entry o ≡ (s, none)))
  unfolding create_in
  create_in-cases s entry o (found k a b p n e) = inl (
    k,
    rw e (record {
      in_range = b;
      was_dead = ==→eq _ dead p;
      first = λ j q. ==→ne _ dead (n j (omega arith) q);
      id = refl;
      created = ground arith;
      others = λ j q. ground arith;
      current = refl;
      counter = refl;
    }),
  )
  create_in-cases s entry o (missed n e) =
      inr ((λ j q. ==→ne _ dead (n j (omega arith) q)), rw e refl)

  -- The first dead slot gets a ready task with the next identifier, and nothing else changes. With
  -- no dead slot the call fails and changes nothing.
  pub scheduler_create_task_cases :
      (s : Scheduler) (entry : ℕ)
      → ((i : ℕ) × Creates s entry i (scheduler_create_task stack s entry))
        ⊎ (((j : ℕ) → j < max_tasks → (s.tasks j).state ≢ dead)
            × (scheduler_create_task stack s entry ≡ (s, none)))
  unfolding scheduler_create_task free_slot
  scheduler_create_task_cases s entry =
      create_in-cases s entry _
        (first_from-result (λ i. (s.tasks i).state == dead) max_tasks 0 max_tasks (omega arith))

  module _ (s : Scheduler) (entry i : ℕ) (r : Scheduler × Option ℕ) (c : Creates s entry i r) where
    kept_id : (j : ℕ) → j ≢ i → (r.0.tasks j).id ≡ (s.tasks j).id
    kept_id j n = ap (λ (t : Task). t.id) (c.others j n)

    kept_state : (j : ℕ) → j ≢ i → (r.0.tasks j).state ≡ (s.tasks j).state
    kept_state j n = ap (λ (t : Task). t.state) (c.others j n)

    new_id : (j : ℕ) → j ≡ i → (r.0.tasks j).id ≡ s.next_task_id
    new_id j e = ap (λ k. (r.0.tasks k).id) e ∙ ap (λ (t : Task). t.id) c.created

    pub Creates-IsNumbered : IsNumbered s → IsNumbered r.0
    Creates-IsNumbered v = record {
      below = λ j h l. elim (ℕ_discrete j i) [
        | yes e ↦ omega (arith, new_id j e, c.counter)
        | no n ↦ omega (arith, kept_id j n, c.counter, v.below j h (λ d. l (kept_state j n ∙ d)))
      ];
      distinct = λ j k hj hk lj lk e. elim (ℕ_discrete j i) [
        | yes p ↦ elim (ℕ_discrete k i) [
          | yes q ↦ omega arith
          | no n ↦
              let old = v.below k hk (λ d. lk (kept_state k n ∙ d)) in
              absurd (omega (arith, new_id j p, kept_id k n))
        ]
        | no m ↦ elim (ℕ_discrete k i) [
          | yes q ↦
              let old = v.below j hj (λ d. lj (kept_state j m ∙ d)) in
              absurd (omega (arith, new_id k q, kept_id j m))
          | no n ↦
              v.distinct j k hj hk (λ d. lj (kept_state j m ∙ d)) (λ d. lk (kept_state k n ∙ d))
                (sym (kept_id j m) ∙ e ∙ kept_id k n)
        ]
      ];
    }

pub init-IsNumbered : (s : Scheduler) → IsNumbered (scheduler_init s)
unfolding scheduler_init
init-IsNumbered s = record {
  below = λ i h l. absurd (l refl);
  distinct = λ i j hi hj l m e. absurd (l refl);
}
