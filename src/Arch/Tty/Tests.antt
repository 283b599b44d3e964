-- ===== src/Arch/Tty/Tests.antt =====
-- Text on the empty terminal, and behind its last row.
use nedoos.Prelude.{[], ◌∷◌, arith}
use nedoos.Arch.Tty.{Terminal, terminal_write}
use nedoos.Arch.Tty.Stream.{Follows, terminal_write-Follows}

abbrev terminal : Terminal
terminal = record { row = 0; column = 78; color = 7; buffer = λ i. 0 }

terminal_write-Follows_example :
    Follows (65 ∷ 66 ∷ 67 ∷ []) terminal (terminal_write (65 ∷ 66 ∷ 67 ∷ []) terminal)
terminal_write-Follows_example =
    terminal_write-Follows (65 ∷ 66 ∷ 67 ∷ []) terminal (omega arith)
      (omega arith, omega arith, (omega arith, omega arith, (omega arith, omega arith, tt)))
