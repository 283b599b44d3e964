-- ===== src/Shell/Line/Buffer.antt =====
-- The bounds of the command buffer, and the two codes that should recall the history.
use nedoos.Prelude.{
  ℕ, ◌+◌, ◌-◌, ◌≤◌, ◌<◌, ◌≡◌, refl, ap, ◌∙◌, true, false, ◌&&◌, List, [], ◌∷◌, Option, none, some,
  ◌>>=◌, update, ltb, leb, ◌==◌, if◌then◌else◌, arith, if-cases, ne→==,
}
use nedoos.Console.{Console, putchar}
use nedoos.Shell.History.{History, history_add}
use nedoos.Shell.Line.Parse.{Command}
use nedoos.Shell.Line.{Line, chars, equals_int, prompt, enter, on_char, on_chars}

-- A fault of the history, or a line within the 256 characters of the buffer that has written
-- nothing past them.
pub data Safe (l : Line) (r : Option Line) : Type 0 where
  fault : r ≡ none → Safe l r
  safe :
      (l' : Line) → r ≡ some l' → l'.pos ≤ 255 → ((j : ℕ) → 256 ≤ j → l'.cmd j ≡ l.cmd j) → Safe l r

module _ (execute : Command → Console → Console) where
  prompt-Safe :
      (l : Line) (o : Option History)
      → l.pos ≤ 255
      → Safe l (
          o >>= λ h. some (
            prompt execute
              (record l { cmd = update l.cmd l.pos 0 })
              (chars (update l.cmd l.pos 0) 0 (l.pos + 1))
              h))
  prompt-Safe l none b = fault refl
  prompt-Safe l (some h) b =
      safe _ refl (omega arith) (λ j q. rw (ne→== j l.pos (omega (arith, q, b))) refl)

  enter-Safe : (l : Line) → l.pos ≤ 255 → Safe l (enter execute l)
  unfolding enter
  enter-Safe l b =
      prompt-Safe l
        (if ltb 0 l.pos
          then history_add (chars (update l.cmd l.pos 0) 0 (l.pos + 1)) l.history
          else some l.history)
        b

  never_up : (c : ℕ) → equals_int c 0x80 ≡ false
  never_up c = ground arith

  never_down : (c : ℕ) → equals_int c 0x81 ≡ false
  never_down c = ground arith

  -- The rest of a round, once neither code of the history matches.
  rest : Line → ℕ → Option Line
  rest l c =
      if leb 32 c && leb c 126 && ltb l.pos 255
      then some
          (record l { cmd = update l.cmd l.pos c; pos = l.pos + 1; console = putchar c l.console })
      else some l

  round :
      (l : Line) (c : ℕ)
      → on_char execute l c ≡ (
          if c == 10
          then enter execute l
          else if (c == 8) && ltb 0 l.pos
          then some (record l { pos = l.pos - 1; console = putchar 8 l.console })
          else rest l c)
  unfolding on_char rest
  round l c = rw (never_up c, never_down c) refl

  room : (l : Line) (c : ℕ) → (leb 32 c && leb c 126 && ltb l.pos 255) ≡ true → l.pos < 255
  room l c h = ground (arith, h)

  rest-Safe : (l : Line) (c : ℕ) → l.pos ≤ 255 → Safe l (rest l c)
  unfolding rest
  rest-Safe l c b =
      if-cases (Safe l) (leb 32 c && leb c 126 && ltb l.pos 255) _ _
        (λ h.
          safe _ refl (next (room l c h)) (λ j q. rw (ne→== j l.pos (omega (arith, q, b))) refl))
        (λ h. safe l refl b (λ j q. refl))
    where
      next : l.pos < 255 → l.pos + 1 ≤ 255
      next h = omega (arith, h)

  on_char-Safe : (l : Line) (c : ℕ) → l.pos ≤ 255 → Safe l (on_char execute l c)
  on_char-Safe l c b = rw (round l c) (
      if-cases (Safe l) (c == 10) (enter execute l) _ (λ h. enter-Safe l b)
        (λ h.
          if-cases (Safe l) ((c == 8) && ltb 0 l.pos) _ (rest l c)
            (λ k. safe _ refl back (λ j q. refl)) (λ k. rest-Safe l c b)))
    where
      back : l.pos - 1 ≤ 255
      back = omega (arith, b)

  -- Whatever bytes come from the keyboard, the cursor stays within the 256 characters of the
  -- command buffer and nothing past them is written, up to a fault of the history.
  pub on_chars-Safe : (cs : List ℕ) (l : Line) → l.pos ≤ 255 → Safe l (on_chars execute cs l)
  unfolding on_chars
  on_chars-Safe [] l b = safe l refl b (λ j q. refl)
  on_chars-Safe (c ∷ cs) l b = elim (on_char-Safe l c b) [
    | fault e ↦ fault (ap (λ o. o >>= λ l'. on_chars execute cs l') e)
    | safe l' e b' k ↦ further l' e k (on_chars-Safe cs l' b')
  ]
    where
      further :
          (l' : Line)
          → on_char execute l c ≡ some l'
          → ((j : ℕ) → 256 ≤ j → l'.cmd j ≡ l.cmd j)
          → Safe l' (on_chars execute cs l')
          → Safe l (on_char execute l c >>= λ l''. on_chars execute cs l'')
      further l' e k (fault q) = fault (ap (λ o. o >>= λ l''. on_chars execute cs l'') e ∙ q)
      further l' e k (safe l'' q b'' k'') =
          safe l'' (ap (λ o. o >>= λ g. on_chars execute cs g) e ∙ q) b'' (λ j h. k'' j h ∙ k j h)

  -- A byte from 128 on does nothing, the codes 0x80 and 0x81 that `getchar` returns for Alt+Up and
  -- Alt+Down among them: the history is never recalled.
  pub on_char_high : (l : Line) (c : ℕ) → 128 ≤ c → on_char execute l c ≡ some l
  unfolding rest
  on_char_high l c h =
      let line : (c == 10) ≡ false = ground (arith, h) in
      let back : ((c == 8) && ltb 0 l.pos) ≡ false = ground (arith, h) in
      let plain : (leb 32 c && leb c 126 && ltb l.pos 255) ≡ false = ground (arith, h) in
      round l c ∙ rw (line, back, plain) refl
