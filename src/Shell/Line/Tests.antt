-- ===== src/Shell/Line/Tests.antt =====
-- An empty line, a history and an environment, and the theorems applied to them.
use nedoos.Prelude.{ℕ, ◌≡◌, refl, List, [], ◌∷◌, some, arith}
use nedoos.Console.{Console}
use nedoos.Shell.Strings.{strcmp_zero}
use nedoos.Shell.History.{History}
use nedoos.Shell.Env.{Env}
use nedoos.Shell.Env.Export.{NoEquals, Fits}
use nedoos.Shell.Line.{Line, on_char, on_chars}
use nedoos.Shell.Line.Parse.{Command, ping, parse}
use nedoos.Shell.Line.Buffer.{Safe, on_chars-Safe, on_char_high}

abbrev ignore : Command → Console → Console
ignore c s = s

abbrev old : History
old = record { history = λ i. 65 ∷ []; history_count = 3; history_pos = some 3 }

abbrev line : Line
line = record {
  cmd = λ i. 0;
  pos = 0;
  console = record { video = λ i. 0; row = 1; col = 2; current_color = 7 };
  history = old;
}

-- ping 1
parse_runs : parse (112 ∷ 105 ∷ 110 ∷ 103 ∷ 32 ∷ 49 ∷ []) ≡ ping (49 ∷ [])
unfolding parse strcmp_zero
parse_runs = refl

abbrev entered : List (List ℕ)
entered = (66 ∷ []) ∷ (67 ∷ []) ∷ []

-- HOME is A.
abbrev vars : Env
vars = record { env_names = λ i. 72 ∷ 79 ∷ 77 ∷ 69 ∷ []; env_values = λ i. 65 ∷ []; env_count = 1 }

vars-Fits : Fits vars
vars-Fits i h = (omega arith, omega arith)

one_name : NoEquals (66 ∷ [])
one_name = (λ e. absurd (omega (arith, e)), omega arith)

on_chars-Safe_example : Safe line (on_chars ignore (65 ∷ 8 ∷ 200 ∷ 66 ∷ 10 ∷ []) line)
on_chars-Safe_example = on_chars-Safe ignore (65 ∷ 8 ∷ 200 ∷ 66 ∷ 10 ∷ []) line (omega arith)

on_char_high_example : on_char ignore line 0x80 ≡ some line
on_char_high_example = on_char_high ignore line 0x80 (omega arith)
