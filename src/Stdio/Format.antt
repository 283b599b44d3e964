-- ===== src/Stdio/Format.antt =====
-- What a format means: the text that it stands for, with the arguments in their places.
use nedoos.Prelude.{
  ℕ, ◌<◌, ◌≡◌, refl, sym, ap, ◌∙◌, inl, inr, false, not, Option, none, some, ◌>>=◌, List, [], ◌∷◌,
  ◌++◌, take, drop, u8, ◌==◌, if◌then◌else◌, arith, Bool-cases,
}
use mathlib.Core.Option.{some-injective, none-ne-some}
use nedoos.Stdio.{Argument, character, text, percent, run_length}

abbrev pub next_character : List Argument → Option (ℕ × List Argument)
next_character (character c ∷ args) = some (u8 c, args)
next_character _ = none

abbrev pub next_text : List Argument → Option (List ℕ × List Argument)
next_text (text str ∷ args) = some (str, args)
next_text _ = none

-- The text of a format, a character at a time. From an unknown letter on it stands for itself.
unfoldable pub render : List ℕ → List Argument → Option (List ℕ)
render [] args = some []
render (x ∷ []) args = some (x ∷ [])
render (x ∷ y ∷ format) args =
    if not (x == percent)
    then render (y ∷ format) args >>= (λ out. some (x ∷ out))
    else if y == percent
    then render format args >>= (λ out. some (x ∷ out))
    else if y == 99
    then next_character args >>= (λ r. render format r.1 >>= λ out. some (r.0 ∷ out))
    else if y == 115
    then next_text args >>= (λ r. render format r.1 >>= λ out. some (r.0 ++ out))
    else some (x ∷ y ∷ format)

-- Characters that a string may hold.
abbrev pub IsText : List ℕ → Type 0
IsText [] = Unit {0}
IsText (c ∷ s) = (0 < c) × (c < 256) × IsText s

abbrev pub IsTexts : List Argument → Type 0
IsTexts [] = Unit {0}
IsTexts (character c ∷ args) = IsTexts args
IsTexts (text s ∷ args) = IsText s × IsTexts args

pub bind_some {ℓ κ} :
    {A : Type ℓ} {B : Type κ} (o : Option A) (k : A → Option B) (b : B)
    → (o >>= k) ≡ some b
    → (a : A) × (o ≡ some a) × (k a ≡ some b)
bind_some none k b e = absurd (none-ne-some b e)
bind_some (some a) k b e = (a, refl, e)

pub render-cons :
    (x : ℕ) (f : List ℕ) (args : List Argument) (out : List ℕ)
    → (x == percent) ≡ false
    → render (x ∷ f) args ≡ some out
    → (rest : List ℕ) × (render f args ≡ some rest) × (out ≡ x ∷ rest)
unfolding render
render-cons x [] args out n e = ([], refl, some-injective _ _ (sym e))
render-cons x (y ∷ f) args out n e =
    let (rest, r, k) = bind_some (render (y ∷ f) args) (λ out. some (x ∷ out)) out (rw n at e) in
    (rest, r, some-injective _ _ (sym k))

-- The characters up to the next percent stand for themselves.
pub render-run :
    (g : List ℕ) (args : List Argument) (out : List ℕ)
    → IsText g
    → render g args ≡ some out
    → (rest : List ℕ) × (render (drop (run_length g) g) args ≡ some rest)
      × (out ≡ take (run_length g) g ++ rest)
unfolding run_length
render-run [] args out t e = (out, e, refl)
render-run (x ∷ f) args out t e = elim (Bool-cases (x == percent)) [
  | inl p ↦ rw p (rw (nonzero x t.0) (out, e, refl))
  | inr n ↦
      let (rest, r, k) = render-cons x f args out n e in
      let (rest', r', k') = render-run f args rest t.2 r in
      rw n (rw (nonzero x t.0) (rest', r', k ∙ ap (λ (s : List ℕ). x ∷ s) k'))
]
  where
    nonzero : (x : ℕ) → 0 < x → (x == 0) ≡ false
    nonzero x h = ground arith
