-- ===== src/Stdio/Render.antt =====
-- `printf` writes the text that its format and arguments stand for.
use nedoos.Prelude.{
  ℕ, zero, suc, ◌+◌, ◌≤◌, ◌<◌, ◌≡◌, refl, sym, ap, ap₂, ◌∙◌, some, List, [], ◌∷◌, length,
  length-append, arith,
}
use nedoos.Arch.Tty.{Terminal, terminal_write}
use nedoos.Arch.Tty.Stream.{terminal_write-append, terminal_write-nil}
use nedoos.Stdio.{Argument, count, go_on, strlen, int_max, one_round, rounds, printf}
use nedoos.Stdio.Format.{render, IsText, IsTexts}
use mathlib.Core.Option.{some-injective}
use nedoos.Stdio.Pieces.{strlen_lem}
use nedoos.Stdio.Rounds.{one_round-Goes}

rounds-go :
    (fuel : ℕ) (format : List ℕ) (args : List Argument) (written : ℕ) (t : Terminal)
    (format' : List ℕ) (args' : List Argument) (written' : ℕ) (t' : Terminal)
    → one_round format args written t ≡ some (go_on t' format' args' written')
    → rounds (suc fuel) format args written t ≡ rounds fuel format' args' written' t'
unfolding rounds
rounds-go fuel format args written t format' args' written' t' e = rw e refl

rounds-stop :
    (fuel : ℕ) (args : List Argument) (written : ℕ) (t : Terminal)
    → rounds (suc fuel) [] args written t ≡ some (t, count written)
unfolding rounds one_round
rounds-stop fuel args written t = refl

rounds-render :
    (fuel : ℕ) (format : List ℕ) (args : List Argument) (written : ℕ) (t : Terminal) (out : List ℕ)
    → length format < fuel
    → IsText format
    → IsTexts args
    → render format args ≡ some out
    → written + length out ≤ int_max
    → rounds fuel format args written t ≡ some (terminal_write out t, count (written + length out))
unfolding render
rounds-render zero format args written t out enough h ha e fits = absurd (omega arith)
rounds-render (suc fuel) [] args written t out enough h ha e fits =
    let none_left : out ≡ [] = sym (some-injective _ _ e) in
    rw none_left (
      rounds-stop fuel args written t
      ∙ ap₂ (λ (r : Terminal) (n : ℕ). some (r, count n)) (sym (terminal_write-nil t))
          (omega arith))
rounds-render (suc fuel) (x ∷ f) args written t out enough h ha e fits =
    let g = one_round-Goes x f args written t out h ha e fits in
    let size : length out ≡ length g.piece + length g.rest =
      ap length g.splits ∙ length-append g.piece g.rest in
    rounds-go fuel (x ∷ f) args written t _ _ _ _ g.result
    ∙ rounds-render fuel g.format' g.args' (written + length g.piece) (terminal_write g.piece t)
        g.rest (omega (arith, g.shorter)) g.is_text g.is_texts g.renders (omega (arith, size))
    ∙ ap₂ (λ (r : Terminal) (n : ℕ). some (r, count n))
        (sym (
          ap (λ (s : List ℕ). terminal_write s t) g.splits
          ∙ terminal_write-append g.piece g.rest t))
        (omega (arith, size))

-- `printf` writes the text that its format and its arguments stand for and returns its length, for
-- every format whose text has at most INT_MAX characters; so its loop ends.
pub printf-render :
    (format : List ℕ) (args : List Argument) (t : Terminal) (out : List ℕ)
    → IsText format
    → IsTexts args
    → render format args ≡ some out
    → length out ≤ int_max
    → printf format args t ≡ some (terminal_write out t, count (length out))
unfolding printf
printf-render format args t out h ha e fits =
    rounds-render (suc (strlen format)) format args 0 t out (omega (arith, strlen_lem format h)) h
      ha e (omega arith)
    ∙ ap (λ (n : ℕ). some (terminal_write out t, count n)) (omega arith)
