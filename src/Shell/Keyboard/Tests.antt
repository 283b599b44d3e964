-- ===== src/Shell/Keyboard/Tests.antt =====
-- A keyboard with Caps Lock on, and the theorems applied to it.
use nedoos.Prelude.{true, false, []}
use nedoos.Shell.Keyboard.{Modifiers, Keyboard}

abbrev capitals : Modifiers
capitals = record { shift = false; caps = true; alt = true; ctrl = false }

abbrev keys : Keyboard
keys = record {
  modifiers = capitals;
  desk = record {
    console = record { video = λ i. i; row = 0; col = 0; current_color = 7 };
    terminals = λ t. record { buffer = λ i. 0; row = 0; col = 0; color = 7; cmd = []; pos = 0 };
    current_terminal = 0;
  };
}
