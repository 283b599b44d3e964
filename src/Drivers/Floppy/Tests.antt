-- ===== src/Drivers/Floppy/Tests.antt =====
-- A controller that is always ready, with the bytes that were sent to it.
use nedoos.Prelude.{ℕ, refl, List, [], ◌∷◌, ◌++◌, ◌==◌, if◌then◌else◌}
use nedoos.Drivers.Ata.{Ports}
use nedoos.Drivers.Floppy.Command.{IsLogged}

abbrev controller : Ports (List ℕ)
controller = record {
  inb = λ port w. (0xff, w);
  inw = λ port w. (0, w);
  outb = λ port v w. if port == 0x3f5 then w ++ v ∷ [] else w;
  outw = λ port v w. w;
}

controller-IsLogged : IsLogged controller (λ w. w)
controller-IsLogged = record { outb_fifo = λ v w. refl; inb_keeps = λ port w. refl }
