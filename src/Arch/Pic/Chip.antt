-- ===== src/Arch/Pic/Chip.antt =====
-- What the data sheet of the 8259A says of its two ports, and how two of them are wired in a PC.
use nedoos.Prelude.{ℕ, ◌≡◌, List, [], ◌∷◌, ◌==◌, if◌then◌else◌}
use nedoos.Drivers.Ata.{Ports}

-- `stage` is the initialization word that is awaited, 0 in operation; `in_service` the interrupts
-- that are not acknowledged yet, the last one first.
pub record Chip : Type 0 where
  pub stage : ℕ
  pub offset : ℕ
  pub mask : ℕ
  pub in_service : List ℕ

abbrev pub rest_of : List ℕ → List ℕ
rest_of [] = []
rest_of (x ∷ xs) = xs

-- 0x11 starts the initialization, which clears the mask; 0x20 acknowledges an interrupt.
abbrev pub command : ℕ → Chip → Chip
command v c =
    if v == 0x11
    then record { stage = 2; offset = c.offset; mask = 0; in_service = [] }
    else if v == 0x20
    then record c { in_service = rest_of c.in_service }
    else c

abbrev pub write_data : ℕ → Chip → Chip
write_data v c =
    if c.stage == 2
    then record c { offset = v; stage = 3 }
    else if c.stage == 3
    then record c { stage = 4 }
    else if c.stage == 4
    then record c { stage = 0 }
    else record c { mask = v }

-- The master at 0x20 and 0x21, the slave at 0xA0 and 0xA1.
pub record IsWired {W : Type 0} (p : Ports W) (master slave : W → Chip) : Type 0 where
  pub master_command : (v : ℕ) (w : W) → master (p.outb 0x20 v w) ≡ command v (master w)
  pub master_data : (v : ℕ) (w : W) → master (p.outb 0x21 v w) ≡ write_data v (master w)
  pub slave_command : (v : ℕ) (w : W) → slave (p.outb 0xa0 v w) ≡ command v (slave w)
  pub slave_data : (v : ℕ) (w : W) → slave (p.outb 0xa1 v w) ≡ write_data v (slave w)
  pub slave_command_keeps : (v : ℕ) (w : W) → master (p.outb 0xa0 v w) ≡ master w
  pub slave_data_keeps : (v : ℕ) (w : W) → master (p.outb 0xa1 v w) ≡ master w
  pub master_command_keeps : (v : ℕ) (w : W) → slave (p.outb 0x20 v w) ≡ slave w
  pub master_data_keeps : (v : ℕ) (w : W) → slave (p.outb 0x21 v w) ≡ slave w
  pub read_master : (w : W) → p.inb 0x21 w ≡ ((master w).mask, w)
  pub read_slave : (w : W) → p.inb 0xa1 w ≡ ((slave w).mask, w)
