-- ===== src/Shell/Line.antt =====
-- kernel/kernel.c: the loop of `kernel_main`, from the character on. What a command does is a
-- parameter, since it belongs to the other parts of the kernel.
pub mod Parse
pub mod Editing
pub mod Buffer
mod Tests
use nedoos.Prelude.{
  ℕ, zero, suc, ◌+◌, ◌-◌, ◌≤◌, Bool, true, false, ◌&&◌, List, [], ◌∷◌, length, Option, none, some,
  ◌>>=◌, Array, update, ltb, leb, ◌==◌, if◌then◌else◌,
}
use nedoos.Console.{Console, putchar, print, set_color}
use nedoos.Shell.Env.{skip_spaces}
use nedoos.Shell.History.{History, history_add, history_get_prev, history_get_next, Recalled}
use nedoos.Shell.Line.Parse.{Command, parse}

-- `cmd` is the buffer of 256 characters and what follows it in memory.
pub record Line : Type 0 where
  pub cmd : Array
  pub pos : ℕ
  pub console : Console
  pub history : History

-- The string in the buffer from `i` on, of at most `n` characters.
pub chars : Array → ℕ → ℕ → List ℕ
chars cmd i zero = []
chars cmd i (suc n) = let rest = chars cmd (i + 1) n in if cmd i == 0 then [] else cmd i ∷ rest

-- A signed `char` compared with an `int` that is not negative.
abbrev pub equals_int : ℕ → ℕ → Bool
equals_int c n = ltb c 128 && (c == n)

-- while (pos > 0) { pos--; putchar('\b'); }
pub erase : ℕ → Console → Console
erase zero s = s
erase (suc pos) s = erase pos (putchar 8 s)

-- for (i = 0; h[i]; i++) cmd[i] = h[i]
pub copy_text : List ℕ → ℕ → Array → Array
copy_text [] i cmd = cmd
copy_text (c ∷ cs) i cmd = copy_text cs (i + 1) (update cmd i c)

-- What follows a call of the history.
pub show_recalled : Line → Recalled → Option Line
unfolding erase copy_text
show_recalled l none = none
show_recalled l (some (h, none)) = some (record l { history = h })
show_recalled l (some (h, some text)) = some (record l {
  cmd = copy_text text 0 l.cmd;
  pos = length text;
  console = print text (erase l.pos l.console);
  history = h;
})

module _ (execute : Command → Console → Console) where
  -- The end of a command: the prompt, and an empty line.
  abbrev pub prompt : Line → List ℕ → History → Line
  prompt l text h = record l {
    pos = 0;
    console =
        print (62 ∷ 32 ∷ [])
          (set_color 0x07 (execute (parse (skip_spaces text)) (putchar 10 l.console)));
    history = h;
  }

  pub enter : Line → Option Line
  enter l =
      let cmd = update l.cmd l.pos 0 in
      let text = chars cmd 0 (l.pos + 1) in
      ((if ltb 0 l.pos then history_add text l.history else some l.history) >>= λ h.
      some (prompt (record l { cmd = cmd }) text h))

  -- One round of the loop. A fault comes from the history only.
  pub on_char : Line → ℕ → Option Line
  unfolding enter
  on_char l c =
      if c == 10
      then enter l
      else if (c == 8) && ltb 0 l.pos
      then some (record l { pos = l.pos - 1; console = putchar 8 l.console })
      else if equals_int c 0x80
      then show_recalled l (history_get_prev l.history)
      else if equals_int c 0x81
      then show_recalled l (history_get_next l.history)
      else if leb 32 c && leb c 126 && ltb l.pos 255
      then some
          (record l { cmd = update l.cmd l.pos c; pos = l.pos + 1; console = putchar c l.console })
      else some l

  pub on_chars : List ℕ → Line → Option Line
  unfolding on_char
  on_chars [] l = some l
  on_chars (c ∷ cs) l = on_char l c >>= λ l'. on_chars cs l'
