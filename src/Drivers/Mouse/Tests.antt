-- ===== src/Drivers/Mouse/Tests.antt =====
-- A pointer that has moved once, and the theorems applied to it.
use nedoos.Prelude.{[], ◌∷◌, ◌==◌, if◌then◌else◌, arith}
use nedoos.Drivers.Mouse.{Mouse, pointer}
use nedoos.Drivers.Mouse.Pointer.{InBounds, Moves, move_all, move_all-Moves}

abbrev moved : Mouse
moved = record {
  video = λ i. if i == 1000 then pointer else 0;
  mouse_x = 40;
  mouse_y = 12;
  mouse_old_x = 39;
  mouse_old_y = 12;
  mouse_buttons = 0;
  mouse_bg = 7;
  cycle = 0;
  mouse_data = λ i. 4;
}

moved-InBounds : InBounds moved
moved-InBounds = record {
  x = omega arith;
  y = omega arith;
  old_x = omega arith;
  old_y = omega arith;
  cycle = omega arith;
}

move_all-Moves_example : Moves moved (move_all (0 ∷ 10 ∷ 250 ∷ []) moved)
move_all-Moves_example = move_all-Moves (0 ∷ 10 ∷ 250 ∷ []) moved moved-InBounds
