-- ===== src/Shell/Strings.antt =====
-- kernel/kernel.c: `strcmp`, on strings as their characters without the final zero.
use nedoos.Prelude.{
  ℕ, ◌≡◌, refl, ap₂, List, [], ◌∷◌, Bool, true, false, ◌==◌, if◌then◌else◌, arith, ==→eq,
  Bool-cases, inl, inr, eq→==,
}

-- strcmp(a, b) == 0
unfoldable pub strcmp_zero : List ℕ → List ℕ → Bool
strcmp_zero [] [] = true
strcmp_zero [] (c ∷ cs) = false
strcmp_zero (c ∷ cs) [] = false
strcmp_zero (c ∷ cs) (d ∷ ds) = let rest = strcmp_zero cs ds in if c == d then rest else false

pub strcmp_zero-eq : (a b : List ℕ) → strcmp_zero a b ≡ true → a ≡ b
unfolding strcmp_zero
strcmp_zero-eq [] [] h = refl
strcmp_zero-eq [] (c ∷ cs) h = absurd (cc)
strcmp_zero-eq (c ∷ cs) [] h = absurd (cc)
strcmp_zero-eq (c ∷ cs) (d ∷ ds) h = elim (Bool-cases (c == d)) [
  | inl e ↦ ap₂ (λ x y. x ∷ y) (==→eq c d e) (strcmp_zero-eq cs ds (ground (arith, h, e)))
  | inr e ↦ absurd (ground (arith, h, e))
]

pub strcmp_zero_same : (a : List ℕ) → strcmp_zero a a ≡ true
unfolding strcmp_zero
strcmp_zero_same [] = refl
strcmp_zero_same (c ∷ cs) = rw (eq→== c c refl) (strcmp_zero_same cs)
