-- ===== src/Shell/History/Recall.antt =====
-- What is added to the history comes back.
use nedoos.Prelude.{ℕ, ◌-◌, ◌%◌, ◌≤◌, ◌<◌, ◌≡◌, refl, List, ◌∷◌, Option, some, ltb, arith, if-cases}
use nedoos.Shell.Strings.{strcmp_zero, strcmp_zero-eq}
use nedoos.Shell.History.{
  History, max_history, push, history_add, history_get_prev, history_get_next, Recalled,
}

-- What `history_add` does to a history with at most 16 commands.
pub data Added (cmd : List ℕ) (h : History) (r : Option History) : Type 0 where
  pushed : r ≡ some (push h cmd) → Added cmd h r
  repeated :
      0 < h.history_count → h.history (h.history_count - 1) ≡ cmd → r ≡ some h → Added cmd h r

-- A command is stored, unless it repeats the last one.
pub history_add-Added :
    (h : History) (c : ℕ) (cs : List ℕ)
    → h.history_count ≤ 16
    → Added (c ∷ cs) h (history_add (c ∷ cs) h)
unfolding history_add
history_add-Added h c cs b =
    if-cases (Added (c ∷ cs) h) (ltb 0 h.history_count) _ _
      (λ p.
        if-cases (Added (c ∷ cs) h) (ltb (h.history_count - 1) max_history) _ _
          (λ q.
            if-cases (Added (c ∷ cs) h) (strcmp_zero (h.history (h.history_count - 1)) (c ∷ cs)) _ _
              (λ e. repeated (ground (arith, p)) (strcmp_zero-eq _ _ e) refl) (λ e. pushed refl))
          (λ q. absurd (ground (arith, q, p, b))))
      (λ p. pushed refl)

abbrev giving : History → List ℕ → Recalled
giving h cmd = some (h, some cmd)

abbrev at_pos : History → ℕ → Recalled
at_pos h k = giving (record h { history_pos = some k }) (h.history (k % max_history))

-- The first Up and the Down after it both give the command.
pub record Recalls (h : History) (cmd : List ℕ) : Type 0 where
  pub up : History
  pub down : History
  pub first : history_get_prev h ≡ some (up, some cmd)
  pub second : history_get_next up ≡ some (down, some cmd)
