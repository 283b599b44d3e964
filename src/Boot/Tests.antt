-- ===== src/Boot/Tests.antt =====
-- A machine whose only device is a timer, with a cleared memory.
use nedoos.Prelude.{refl, [], true, ne→==, ◌==◌, if◌then◌else◌, arith, Gives}
use nedoos.Drivers.Ata.{Ports}
use nedoos.Drivers.Pit.Reload.{Channel, IsPit, write_byte}
use nedoos.Boot.{System, kernel_main}
use nedoos.Boot.Start.{IsApart, Started, kernel_main-Started}

abbrev board : Ports Channel
board = record {
  inb = λ port w. (0, w);
  inw = λ port w. (0, w);
  outb = λ port v w.
      if port == 0x43
      then record w { low_next = 1 }
      else if port == 0x40
      then write_byte v w
      else w;
  outw = λ port v w. w;
}

board-IsPit : IsPit board (λ w. w)
board-IsPit = record { command = λ w. refl; value = λ v w. refl }

board-IsApart : IsApart board (λ w. w)
board-IsApart = record {
  read = λ port w. refl;
  write = λ port v w a b. rw (ne→== port 0x43 b, ne→== port 0x40 a) refl;
}

abbrev off : System Channel
off = record {
  desk = record {
    console = record { video = λ i. i; row = 0; col = 0; current_color = 7 };
    terminals = λ t. record { buffer = λ i. 0; row = 0; col = 0; color = 0; cmd = []; pos = 0 };
    current_terminal = 0;
  };
  mouse = record {
    video = λ i. i;
    mouse_x = 40;
    mouse_y = 12;
    mouse_old_x = 0;
    mouse_old_y = 0;
    mouse_buttons = 0;
    mouse_bg = 0;
    cycle = 0;
    mouse_data = λ i. 0;
  };
  mouse_present = 0;
  net = record {
    arp_table = λ i. record { ip = 0; mac = []; age = 0 };
    arp_table_count = 0;
    ping_request = record { ip = 0; id = 0; seq = 0; tries = 0; waiting = true };
    sent = [];
  };
  env = record { env_names = λ i. []; env_values = λ i. []; env_count = 0 };
  world = record { low_next = 0; low = 0; reload = 0 };
}

kernel_main-Started_example : Gives (Started (λ w. w) off) (kernel_main board off)
kernel_main-Started_example =
    kernel_main-Started board (λ w. w) board-IsPit board-IsApart off (omega arith)
