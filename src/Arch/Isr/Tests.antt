-- ===== src/Arch/Isr/Tests.antt =====
-- The mouse's interrupt, 12, with a handler that does nothing.
use nedoos.Prelude.{ℕ, ◌≡◌, refl, none, [], arith}
use nedoos.Arch.Pic.Chip.{Chip}
use nedoos.Arch.Pic.Wires.{Pair, wires, wires-IsWired}
use nedoos.Arch.Isr.{Regs, Machine, irq_handler}
use nedoos.Arch.Isr.Acknowledge.{irq_handler-acknowledges, raise_master, raise_slave}

abbrev run : ℕ → Regs → Machine ℕ Pair → Machine ℕ Pair
run f r m = m

abbrev idle : Chip
idle = record { stage = 0; offset = 0x20; mask = 0; in_service = [] }

abbrev raised : Machine ℕ Pair
raised = record { irq_handlers = λ i. none; world = (raise_master 12 idle, raise_slave 12 idle) }

abbrev regs : Regs
regs = record { int_no = 44; err_code = 0 }

irq_handler-acknowledges_example :
    ((irq_handler wires run regs raised).world.0 ≡ idle)
    × ((irq_handler wires run regs raised).world.1 ≡ idle)
irq_handler-acknowledges_example =
    irq_handler-acknowledges wires run (λ w. w.0) (λ w. w.1) wires-IsWired 12 0 raised idle idle
      (record { keeps_master = λ f r m. refl; keeps_slave = λ f r m. refl }) (omega arith) refl refl
