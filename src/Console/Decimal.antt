-- ===== src/Console/Decimal.antt =====
-- `print_dec` prints the decimal numeral of its argument.
use nedoos.Prelude.{
  ℕ, zero, suc, ◌+◌, ◌-◌, ◌*◌, ◌/◌, ◌%◌, ◌^◌, ◌≤◌, ◌<◌, ◌≡◌, ◌⊎◌, inl, inr, refl, ap, ◌∙◌, List, [],
  ◌∷◌, some, arith, ℕ_discrete,
}
use nedoos.Console.{Console, print, digits, print_dec}

-- The number that a row of digits stands for, after a number read before it.
abbrev pub value : ℕ → List ℕ → ℕ
value n [] = n
value n (c ∷ cs) = value (n * 10 + (c - 48)) cs

abbrev pub AllDigits : List ℕ → Type 0
AllDigits [] = 48 ≤ 48
AllDigits (c ∷ cs) = (48 ≤ c) × (c ≤ 57) × AllDigits cs

-- The first digit is not zero.
pub Leads : List ℕ → Type 0
Leads [] = 1 ≤ 0
Leads (c ∷ cs) = 48 < c

pub record Reads (n : ℕ) (buf r : List ℕ) : Type 0 where
  pub total : value 0 r ≡ value n buf
  pub all : AllDigits buf → AllDigits r
  pub leads : (0 < n) ⊎ Leads buf → Leads r

digits-step :
    (n : ℕ) (buf r : List ℕ) → Reads (suc n / 10) ((48 + suc n % 10) ∷ buf) r → Reads (suc n) buf r
unfolding Leads
digits-step n buf r h =
    let d : ℕ = suc n % 10 in
    let whole : suc n / 10 * 10 + (48 + d - 48) ≡ suc n = omega arith in
    record {
      total = h.total ∙ ap (λ k. value k buf) whole;
      all = λ a. h.all (omega arith, omega arith, a);
      leads = λ p. elim (ℕ_discrete (suc n / 10) 0) [
        | yes small ↦ h.leads (inr (omega (arith, small)))
        | no more ↦ h.leads (inl (omega (arith, more)))
      ];
    }

digits-Reads :
    (room n : ℕ) (buf : List ℕ)
    → n < 10 ^ room
    → (r : List ℕ) × (digits room n buf ≡ some r) × Reads n buf r
unfolding digits
digits-Reads room zero buf h =
    (buf, refl, record { total = refl; all = λ a. a; leads = λ p. only p })
  where
    only : (0 < 0) ⊎ Leads buf → Leads buf
    only (inl x) = absurd (omega (arith, x))
    only (inr x) = x
digits-Reads zero (suc n) buf h = absurd (omega (arith, h))
digits-Reads (suc room) (suc n) buf h =
    let (r, e, p) = digits-Reads room (suc n / 10) ((48 + suc n % 10) ∷ buf) (omega (arith, h)) in
    (r, e, digits-step n buf r p)

-- What is printed is the numeral of the number: digits that stand for it, the first of them not
-- zero unless the number is. The buffer of 12 characters is large enough for 32 bits.
pub print_dec_lem :
    (num : ℕ) (s : Console)
    → num < 2 ^ 32
    → (cs : List ℕ) × (print_dec num s ≡ some (print cs s))
      × (value 0 cs ≡ num)
      × AllDigits cs
      × (0 < num → Leads cs)
unfolding print_dec print
print_dec_lem zero s h =
    (48 ∷ [], refl, refl, (omega arith, omega arith, omega arith), λ p. absurd (omega (arith, p)))
print_dec_lem (suc n) s h =
    let (r, e, p) = digits-Reads 12 (suc n) [] (omega (arith, h)) in
    (r, ground (arith, e), p.total, p.all (omega arith), λ q. p.leads (inl q))
