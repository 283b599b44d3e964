-- ===== src/Shell/History/Overrun.antt =====
-- The history's comparison with the last command, beyond 16 commands.
use nedoos.Prelude.{
  ℕ, ◌-◌, ◌≤◌, ◌<◌, ◌≡◌, ◌⊎◌, inl, inr, refl, ap, ◌∙◌, List, [], ◌∷◌, Option, none, some, ◌>>=◌,
  ltb, arith, true, false, dec_le,
}
use nedoos.Shell.History.{History, max_history, push, history_add}
use nedoos.Shell.History.Recall.{Added, pushed, repeated, history_add-Added}

-- Any number of commands, one after the other.
pub add_all : List (List ℕ) → History → Option History
unfolding history_add
add_all [] h = some h
add_all (cmd ∷ cmds) h = history_add cmd h >>= λ h'. add_all cmds h'

-- The command that is compared with stands past the array.
add_past :
    (h : History) (c : ℕ) (cs : List ℕ) → 16 < h.history_count → history_add (c ∷ cs) h ≡ none
unfolding history_add
add_past h c cs b =
    let some_before : ltb 0 h.history_count ≡ true = ground (arith, b) in
    let past : ltb (h.history_count - 1) max_history ≡ false = ground (arith, b) in
    rw (some_before, past) refl

data Step (h : History) (r : Option History) : Type 0 where
  fault : r ≡ none → Step h r
  goes_on : (h' : History) → h'.history_count ≤ 17 → r ≡ some h' → Step h r

Added-Step :
    (h : History) (cmd : List ℕ) (r : Option History)
    → h.history_count ≤ 16
    → Added cmd h r
    → Step h r
Added-Step h cmd r b (pushed q) = goes_on (push h cmd) (omega (arith, b)) q
Added-Step h cmd r b (repeated p t q) = goes_on h (omega (arith, b)) q

add-Step : (h : History) (cmd : List ℕ) → h.history_count ≤ 17 → Step h (history_add cmd h)
unfolding history_add
add-Step h [] b = goes_on h b refl
add-Step h (c ∷ cs) b = elim (dec_le h.history_count 16) [
  | yes p ↦ Added-Step h (c ∷ cs) _ p (history_add-Added h c cs p)
  | no p ↦ fault (add_past h c cs (omega (arith, p)))
]

-- However many commands are entered, the history never counts more than 17: the next command that
-- is not empty is then compared with `history[16]`, past the array. The wrap at 16 is used once.
pub add_all-bounded :
    (cmds : List (List ℕ)) (h : History)
    → h.history_count ≤ 17
    → (add_all cmds h ≡ none)
      ⊎ ((h' : History) × (add_all cmds h ≡ some h') × (h'.history_count ≤ 17))
unfolding add_all
add_all-bounded [] h b = inr (h, refl, b)
add_all-bounded (cmd ∷ cmds) h b = elim (add-Step h cmd b) [
  | fault q ↦ inl (ap (λ o. o >>= λ h'. add_all cmds h') q)
  | goes_on h' b' q ↦
      let step = ap (λ o. o >>= λ g. add_all cmds g) q in
      elim (add_all-bounded cmds h' b') [
        | inl e ↦ inl (step ∙ e)
        | inr (g, e, c) ↦ inr (g, step ∙ e, c)
      ]
]
