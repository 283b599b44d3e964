-- ===== src/Drivers/Mouse/Pointer.antt =====
-- Where the pointer goes, and what it leaves on the screen.
use nedoos.Prelude.{
  ℕ, ◌+◌, ◌%◌, ◌≤◌, ◌<◌, ◌≡◌, ◌≢◌, List, [], ◌∷◌, Array, update, ◌==◌, arith, if-cases, ne→==,
}
use nedoos.Drivers.Mouse.{
  Mouse, move_x, move_y, clamp, cell, pointer, restored, finish_packet, mouse_handler,
}

-- The pointer, its last place and the packet are within their bounds.
pub record InBounds (s : Mouse) : Type 0 where
  pub x : s.mouse_x < 80
  pub y : s.mouse_y < 25
  pub old_x : s.mouse_old_x < 80
  pub old_y : s.mouse_old_y < 25
  pub cycle : s.cycle < 3

clamp-bound : (width x : ℕ) → 0 < width → clamp width x < width
unfolding clamp
clamp-bound width x h = ground (arith, h)

finish_packet-InBounds : (s : Mouse) → InBounds s → InBounds (finish_packet s)
unfolding finish_packet
finish_packet-InBounds s v = record {
  x = clamp-bound 80 (move_x s.mouse_x (s.mouse_data 1)) (omega arith);
  y = clamp-bound 25 (move_y s.mouse_y (s.mouse_data 2)) (omega arith);
  old_x = v.x;
  old_y = v.y;
  cycle = v.cycle;
}

fallen : (y byte : ℕ) → y < 25 → clamp 25 (move_y y byte) ≤ y
unfolding clamp move_y
fallen y byte h = ground (arith, h)

-- What one byte keeps: the bounds, and the pointer never goes down.
pub record Moves (s t : Mouse) : Type 0 where
  pub bounds : InBounds t
  pub never_down : t.mouse_y ≤ s.mouse_y

same_row : (n : ℕ) → n ≤ n
same_row n = omega arith

pub mouse_handler-Moves : (byte : ℕ) (s : Mouse) → InBounds s → Moves s (mouse_handler byte s)
unfolding mouse_handler
mouse_handler-Moves byte s v =
    let s' : Mouse = record s {
      mouse_data = update s.mouse_data s.cycle byte;
      cycle = (s.cycle + 1) % 3;
    } in
    let next : InBounds s' = record {
      x = v.x;
      y = v.y;
      old_x = v.old_x;
      old_y = v.old_y;
      cycle = omega arith;
    } in
    if-cases (Moves s) ((s.cycle + 1) % 3 == 0) (finish_packet s') s'
      (λ h. record { bounds = finish_packet-InBounds s' next; never_down = packet_fallen s' v.y })
      (λ h. record { bounds = next; never_down = same_row s.mouse_y })
  where
    packet_fallen : (t : Mouse) → t.mouse_y < 25 → (finish_packet t).mouse_y ≤ t.mouse_y
    packet_fallen t h = unfold finish_packet in fallen t.mouse_y (t.mouse_data 2) h

pub move_all : List ℕ → Mouse → Mouse
unfolding mouse_handler
move_all [] s = s
move_all (byte ∷ bytes) s = move_all bytes (mouse_handler byte s)

-- Whatever bytes the mouse sends, the pointer stays on the screen and the packet buffer is not
-- overrun; and the pointer never goes down, since a movement down is taken for a larger one up.
pub move_all-Moves : (bytes : List ℕ) (s : Mouse) → InBounds s → Moves s (move_all bytes s)
unfolding move_all
move_all-Moves [] s v = record { bounds = v; never_down = same_row s.mouse_y }
move_all-Moves (byte ∷ bytes) s v =
    let first = mouse_handler-Moves byte s v in
    let rest = move_all-Moves bytes (mouse_handler byte s) first.bounds in
    record { bounds = rest.bounds; never_down = omega (arith, first.never_down, rest.never_down) }

-- The handler restores the cell where the pointer was one packet before, not the one where it is: a
-- pointer that has moved stays on the screen when it moves on.
pub finish_packet_leaves :
    (s : Mouse)
    → s.video (cell s.mouse_x s.mouse_y) ≡ pointer
    → cell s.mouse_x s.mouse_y ≢ cell s.mouse_old_x s.mouse_old_y
    → (finish_packet s).video (cell s.mouse_x s.mouse_y) ≡ pointer
unfolding finish_packet
finish_packet_leaves s p n =
    let here : ℕ = cell s.mouse_x s.mouse_y in
    let kept : restored s here ≡ pointer = rw (ne→== here (cell s.mouse_old_x s.mouse_old_y) n) p in
    drawn
      (cell (clamp 80 (move_x s.mouse_x (s.mouse_data 1)))
        (clamp 25 (move_y s.mouse_y (s.mouse_data 2))))
      here (restored s) kept
  where
    drawn : (new here : ℕ) (v : Array) → v here ≡ pointer → update v new pointer here ≡ pointer
    drawn new here v h = ground (arith, h)
