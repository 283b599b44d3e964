-- ===== src/Shell/Line/Editing.antt =====
-- The line that is typed, and the buffer it stands in.
use nedoos.Prelude.{ℕ, ◌+◌, ◌≤◌, ◌<◌, ◌≡◌, List, [], ◌∷◌, ◌++◌, length, Option, some, Array, update}
use nedoos.Console.{Console, putchar, print, set_color}
use nedoos.Shell.Env.{skip_spaces}
use nedoos.Shell.History.{History}
use nedoos.Shell.Line.Parse.{Command, parse}
use nedoos.Shell.Line.{Line, on_chars}

-- Every character of the text can be typed into the line.
abbrev pub Printable : List ℕ → Type 0
Printable [] = 0 ≤ 0
Printable (c ∷ cs) = (32 ≤ c) × (c ≤ 126) × Printable cs

-- The characters stand in memory from `i` on.
pub Spells : Array → ℕ → List ℕ → Type 0
Spells cmd i [] = 0 ≤ 0
Spells cmd i (c ∷ cs) = (cmd i ≡ c) × Spells cmd (i + 1) cs

module _ (execute : Command → Console → Console) where
  abbrev typed : Line → ℕ → Line
  typed l c = record l {
    cmd = update l.cmd l.pos c;
    pos = l.pos + 1;
    console = putchar c l.console;
  }

  -- What typing the text comes to, whatever is typed after it.
  pub record Types (l : Line) (cs : List ℕ) : Type 0 where
    pub after : Line
    pub runs : (ds : List ℕ) → on_chars execute (cs ++ ds) l ≡ on_chars execute ds after
    pub pos : after.pos ≡ l.pos + length cs
    pub kept : (j : ℕ) → j < l.pos → after.cmd j ≡ l.cmd j
    pub text : Spells after.cmd l.pos cs
    pub console : after.console ≡ print cs l.console
    pub history : after.history ≡ l.history

  -- The line after Enter.
  pub record Enters (l : Line) (text : List ℕ) (h : History) (r : Option Line) : Type 0 where
    pub after : Line
    pub returns : r ≡ some after
    pub console :
        after.console
        ≡ print (62 ∷ 32 ∷ []) (
            set_color 0x07 (execute (parse (skip_spaces text)) (putchar 10 (print text l.console))))
    pub pos : after.pos ≡ 0
    pub history : after.history ≡ h
