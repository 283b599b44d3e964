-- ===== src/Drivers/Mouse.antt =====
-- kernel/kernel.c: `mouse_handler`, which moves a pointer on the text screen.
pub mod Pointer
mod Tests
use nedoos.Prelude.{ℕ, ◌+◌, ◌-◌, ◌*◌, ◌/◌, ◌%◌, ◌≤◌, ◌<◌, Array, update, ltb, ◌==◌, if◌then◌else◌}

-- `video` is the screen's memory. The three bytes of a packet come one by one.
pub record Mouse : Type 0 where
  pub video : Array
  pub mouse_x : ℕ
  pub mouse_y : ℕ
  pub mouse_old_x : ℕ
  pub mouse_old_y : ℕ
  pub mouse_buttons : ℕ
  pub mouse_bg : ℕ
  pub cycle : ℕ
  pub mouse_data : Array

-- A signed coordinate is held with 512 added to it.
abbrev pub bias : ℕ
bias = 512

-- x + dx / 2, where the byte is dx, or dx + 256 from 0x80 on. The division is towards zero.
pub move_x : ℕ → ℕ → ℕ
move_x x byte = if ltb byte 0x80 then bias + x + byte / 2 else bias + x - (256 - byte) / 2

-- y + dy / 2, where dy is minus the byte, and less another 256 from 0x80 on.
pub move_y : ℕ → ℕ → ℕ
move_y y byte = if ltb byte 0x80 then bias + y - byte / 2 else bias + y - (byte + 256) / 2

-- if (x < 0) x = 0; if (x >= width) x = width - 1
pub clamp : ℕ → ℕ → ℕ
clamp width x = if ltb x bias then 0 else if ltb (x - bias) width then x - bias else width - 1

abbrev pub cell : ℕ → ℕ → ℕ
cell x y = y * 80 + x

abbrev pub pointer : ℕ
pointer = 0xdb0f

-- The screen without what the handler takes for the old pointer.
abbrev pub restored : Mouse → Array
restored s = update s.video (cell s.mouse_old_x s.mouse_old_y) s.mouse_bg

-- The end of a packet.
pub finish_packet : Mouse → Mouse
unfolding move_x move_y clamp
finish_packet s =
    let x = clamp 80 (move_x s.mouse_x (s.mouse_data 1)) in
    let y = clamp 25 (move_y s.mouse_y (s.mouse_data 2)) in
    record {
      video = update (restored s) (cell x y) pointer;
      mouse_x = x;
      mouse_y = y;
      mouse_old_x = s.mouse_x;
      mouse_old_y = s.mouse_y;
      mouse_buttons = s.mouse_data 0 % 8;
      mouse_bg = restored s (cell x y);
      cycle = s.cycle;
      mouse_data = s.mouse_data;
    }

pub mouse_handler : ℕ → Mouse → Mouse
unfolding finish_packet
mouse_handler byte s =
    let s' = record s {
      mouse_data = update s.mouse_data s.cycle byte;
      cycle = (s.cycle + 1) % 3;
    } in
    if s'.cycle == 0 then finish_packet s' else s'

-- `mouse_init`, less its writes to the ports and `mouse_present`.
pub mouse_init : Mouse → Mouse
mouse_init s = record s {
  mouse_old_x = s.mouse_x;
  mouse_old_y = s.mouse_y;
  mouse_bg = s.video (cell s.mouse_x s.mouse_y);
}
