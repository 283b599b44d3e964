-- ===== src/Drivers/Pit/Tests.antt =====
-- A machine that is a timer, at 100 Hz.
use nedoos.Prelude.{refl, ◌==◌, if◌then◌else◌}
use nedoos.Drivers.Ata.{Ports}
use nedoos.Drivers.Pit.Reload.{Channel, IsPit, write_byte}

abbrev timer : Ports Channel
timer = record {
  inb = λ port w. (0, w);
  inw = λ port w. (0, w);
  outb = λ port v w.
      if port == 0x43
      then record w { low_next = 1 }
      else if port == 0x40
      then write_byte v w
      else w;
  outw = λ port v w. w;
}

timer-IsPit : IsPit timer (λ w. w)
timer-IsPit = record { command = λ w. refl; value = λ v w. refl }

abbrev off : Channel
off = record { low_next = 0; low = 0; reload = 0 }
