-- ===== src/Console/Tests.antt =====
-- A screen with the cursor in the last column of its last row, and the theorems applied to it.
use nedoos.Prelude.{◌+◌, ◌*◌, ◌≡◌, refl, [], ◌∷◌, arith}
use nedoos.Console.{Console, advance, putchar, print, print_hex}
use nedoos.Console.Screen.{IsOnScreen, Stays, print-Stays}
use nedoos.Console.Terminals.{Desk, vt_switch}
use nedoos.Console.Terminals.Restore.{ShowsSame, Switches, vt_switch-Switches, vt_switch_back}

abbrev screen : Console
screen = record { video = λ i. i; row = 24; col = 79; current_color = 7 }

screen-IsOnScreen : IsOnScreen screen
screen-IsOnScreen = record { row = omega arith; col = omega arith }

hex_runs : (print_hex 0x5a (record screen { row = 3; col = 0 })).video 241 ≡ 65 + 256 * 7
unfolding print_hex putchar advance
hex_runs = refl

print-Stays_example : Stays screen (print (72 ∷ 105 ∷ 10 ∷ 8 ∷ []) screen)
print-Stays_example = print-Stays (72 ∷ 105 ∷ 10 ∷ 8 ∷ []) screen screen-IsOnScreen

abbrev desk : Desk
desk = record {
  console = screen;
  terminals = λ t. record { buffer = λ i. t; row = t; col = 0; color = 7; cmd = []; pos = 0 };
  current_terminal = 0;
}

vt_switch-Switches_example : Switches desk 2 (vt_switch 2 desk)
vt_switch-Switches_example =
    vt_switch-Switches desk 2 (omega arith) (λ e. absurd (omega (arith, e)))

vt_switch_back_example :
    ShowsSame desk.console (vt_switch desk.current_terminal (vt_switch 2 desk)).console
vt_switch_back_example =
    vt_switch_back desk 2 (omega arith) (omega arith) (λ e. absurd (omega (arith, e)))
