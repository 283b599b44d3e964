-- ===== src/Stdio/Tests.antt =====
-- A format with each kind of directive.
use nedoos.Prelude.{ℕ, ◌≡◌, refl, some, List, [], ◌∷◌, arith}
use nedoos.Arch.Tty.{Terminal, terminal_write}
use nedoos.Stdio.{Argument, character, text, count, printf}
use nedoos.Stdio.Format.{render, IsText}
use nedoos.Stdio.Render.{printf-render}

-- "a%%%c%s%d"
abbrev format : List ℕ
format = 97 ∷ 37 ∷ 37 ∷ 37 ∷ 99 ∷ 37 ∷ 115 ∷ 37 ∷ 100 ∷ []

abbrev arguments : List Argument
arguments = character 98 ∷ text (99 ∷ 100 ∷ []) ∷ []

-- "a%bcd%d"
abbrev expected : List ℕ
expected = 97 ∷ 37 ∷ 98 ∷ 99 ∷ 100 ∷ 37 ∷ 100 ∷ []

abbrev terminal : Terminal
terminal = record { row = 0; column = 0; color = 7; buffer = λ i. 0 }

format-renders : render format arguments ≡ some expected
unfolding render
format-renders = refl

format-IsText : IsText format
format-IsText = ground arith

printf-render_example :
    printf format arguments terminal ≡ some (terminal_write expected terminal, count 7)
printf-render_example =
    printf-render format arguments terminal expected format-IsText (ground arith, tt) format-renders
      (omega arith)
