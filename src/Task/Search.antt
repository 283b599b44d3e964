-- ===== src/Task/Search.antt =====
-- The two searches of the task tables: round the table from the current task, and from the start
-- for a free slot.
use native.Mathlib.Nat.{mod-add-mod, mod-eq_of_lt, add-zero}
use nedoos.Prelude.{
  ℕ, zero, suc, ◌+◌, ◌%◌, ◌≤◌, ◌<◌, ◌≡◌, ◌∙◌, inl, inr, refl, ap, Bool, true, false, Option, none,
  some, if◌then◌else◌, arith, Bool-cases, sym, ℕ_discrete,
}

-- for (k = 0; k < rounds; k++) { i = (i + 1) % size; if (p(i)) break; }
unfoldable pub go_round : ℕ → (ℕ → Bool) → ℕ → ℕ → ℕ
go_round size p zero i = i
go_round size p (suc rounds) i =
    let next = (i + 1) % size in
    let rest = go_round size p rounds next in if p next then next else rest

-- for (k = i; k < i + rounds; k++) if (p(k)) return k;
unfoldable pub first_from : (ℕ → Bool) → ℕ → ℕ → Option ℕ
first_from p zero i = none
first_from p (suc rounds) i = let rest = first_from p rounds (i + 1) in if p i then some i else rest

-- The index `k + 1` places after `i`.
abbrev pub place : ℕ → ℕ → ℕ → ℕ
place size i k = (i + 1 + k) % size

abbrev pub NoneAt : ℕ → (ℕ → Bool) → ℕ → ℕ → Type 0
NoneAt size p i k = (j : ℕ) → j < k → p (place size i j) ≡ false

place-place : (size i k : ℕ) → place size ((i + 1) % size) k ≡ place size i (suc k)
place-place size i k =
    ap (λ t. t % size) (omega arith)
    ∙ mod-add-mod (i + 1) size (1 + k)
    ∙ ap (λ t. t % size) (omega arith)

-- What the search round the table finds: the first index that passes, or none, having come to the
-- index `rounds` places on.
pub data RoundResult (size : ℕ) (p : ℕ → Bool) (rounds i r : ℕ) : Type 0 where
  found :
      (k : ℕ)
      → k < rounds
      → p (place size i k) ≡ true
      → NoneAt size p i k
      → r ≡ place size i k
      → RoundResult size p rounds i r
  missed : NoneAt size p i rounds → r ≡ (i + rounds) % size → RoundResult size p rounds i r

NoneAt-suc :
    (size : ℕ) (p : ℕ → Bool) (i k : ℕ)
    → p ((i + 1) % size) ≡ false
    → NoneAt size p ((i + 1) % size) k
    → NoneAt size p i (suc k)
NoneAt-suc size p i k e rest zero h = ap p (ap (λ t. t % size) (omega arith)) ∙ e
NoneAt-suc size p i k e rest (suc j) h = ap p (sym (place-place size i j)) ∙ rest j (omega arith)

step_round :
    (size : ℕ) (p : ℕ → Bool) (rounds i r : ℕ)
    → p ((i + 1) % size) ≡ false
    → RoundResult size p rounds ((i + 1) % size) r
    → RoundResult size p (suc rounds) i r
step_round size p rounds i r e (found k h q n u) =
    found (suc k) (omega arith) (ap p (sym (place-place size i k)) ∙ q) (NoneAt-suc size p i k e n)
      (u ∙ place-place size i k)
step_round size p rounds i r e (missed n u) =
    missed (NoneAt-suc size p i rounds e n)
      (u ∙ mod-add-mod (i + 1) size rounds ∙ ap (λ t. t % size) (omega arith))

pub go_round-result :
    (size : ℕ) (p : ℕ → Bool) (rounds i : ℕ)
    → i < size
    → RoundResult size p rounds i (go_round size p rounds i)
unfolding go_round
go_round-result size p zero i h =
    missed (λ j q. absurd (omega arith)) (sym (ap (λ t. t % size) (add-zero i) ∙ mod-eq_of_lt h))
go_round-result size p (suc rounds) i h = elim (Bool-cases (p ((i + 1) % size))) [
  | inl e ↦ rw e (
      found zero (omega arith) (ap p (ap (λ t. t % size) (add-zero (i + 1))) ∙ e)
        (λ j q. absurd (omega arith)) (sym (ap (λ t. t % size) (add-zero (i + 1)))))
  | inr e ↦ rw e (
      step_round size p rounds i _ e (go_round-result size p rounds ((i + 1) % size) (omega arith)))
]

-- What the search from the start finds.
pub data FirstResult (p : ℕ → Bool) (i stop : ℕ) (r : Option ℕ) : Type 0 where
  found :
      (k : ℕ)
      → i ≤ k
      → k < stop
      → p k ≡ true
      → ((j : ℕ) → i ≤ j → j < k → p j ≡ false)
      → r ≡ some k
      → FirstResult p i stop r
  missed : ((j : ℕ) → i ≤ j → j < stop → p j ≡ false) → r ≡ none → FirstResult p i stop r

none_before :
    (p : ℕ → Bool) (i k : ℕ)
    → p i ≡ false
    → ((j : ℕ) → i + 1 ≤ j → j < k → p j ≡ false)
    → (j : ℕ) → i ≤ j
    → j < k
    → p j ≡ false
none_before p i k e rest j a b = elim (ℕ_discrete i j) [
  | yes q ↦ rw (← q) e
  | no n ↦ rest j (omega arith) b
]

step_first :
    (p : ℕ → Bool) (i stop : ℕ) (r : Option ℕ)
    → p i ≡ false
    → FirstResult p (i + 1) stop r
    → FirstResult p i stop r
step_first p i stop r e (found k a b q n u) = found k (omega arith) b q (none_before p i k e n) u
step_first p i stop r e (missed n u) = missed (none_before p i stop e n) u

pub first_from-result :
    (p : ℕ → Bool) (rounds i stop : ℕ)
    → i + rounds ≡ stop
    → FirstResult p i stop (first_from p rounds i)
unfolding first_from
first_from-result p zero i stop h = missed (λ j a b. absurd (omega arith)) refl
first_from-result p (suc rounds) i stop h = elim (Bool-cases (p i)) [
  | inl e ↦ rw e (found i (omega arith) (omega arith) e (λ j a b. absurd (omega arith)) refl)
  | inr e ↦ rw e (step_first p i stop _ e (first_from-result p rounds (i + 1) stop (omega arith)))
]
