-- ===== src/Arch/Pic/Wires.antt =====
-- A pair of controllers on their ports, and nothing else.
use nedoos.Prelude.{refl, ◌==◌, if◌then◌else◌}
use nedoos.Drivers.Ata.{Ports}
use nedoos.Arch.Pic.Chip.{Chip, IsWired, command, write_data}

abbrev pub Pair : Type 0
Pair = Chip × Chip

abbrev pub wires : Ports Pair
wires = record {
  inb = λ port w. ((if port == 0x21 then w.0.mask else w.1.mask), w);
  inw = λ port w. (0, w);
  outb = λ port v w.
      if port == 0x20
      then (command v w.0, w.1)
      else if port == 0x21
      then (write_data v w.0, w.1)
      else if port == 0xa0
      then (w.0, command v w.1)
      else if port == 0xa1
      then (w.0, write_data v w.1)
      else w;
  outw = λ port v w. w;
}

pub wires-IsWired : IsWired wires (λ w. w.0) (λ w. w.1)
wires-IsWired = record {
  master_command = λ v w. refl;
  master_data = λ v w. refl;
  slave_command = λ v w. refl;
  slave_data = λ v w. refl;
  slave_command_keeps = λ v w. refl;
  slave_data_keeps = λ v w. refl;
  master_command_keeps = λ v w. refl;
  master_data_keeps = λ v w. refl;
  read_master = λ w. refl;
  read_slave = λ w. refl;
}
