-- ===== src/Arch/Pic.antt =====
-- kernel/arch/i386/pic.c: the two interrupt controllers, over the instructions that reach the ports.
pub mod Chip
pub mod Masks
pub mod Wires
use nedoos.Prelude.{ℕ, ◌+◌, ◌-◌, ◌*◌, ◌%◌, ◌^◌, bit_and, bit_or, u8, ltb, if◌then◌else◌}
use nedoos.Drivers.Ata.{Ports}

abbrev pub pic1_command : ℕ
pic1_command = 0x20

abbrev pub pic1_data : ℕ
pic1_data = 0x21

abbrev pub pic2_command : ℕ
pic2_command = 0xa0

abbrev pub pic2_data : ℕ
pic2_data = 0xa1

-- ICW1_INIT | ICW1_ICW4
abbrev pub icw1 : ℕ
icw1 = 0x11

abbrev pub icw4_8086 : ℕ
icw4_8086 = 0x01

-- The port and the line that an interrupt number stands for.
abbrev pub data_port : ℕ → ℕ
data_port irq = if ltb irq 8 then pic1_data else pic2_data

abbrev pub line_of : ℕ → ℕ
line_of irq = if ltb irq 8 then irq else irq - 8

module _ {W : Type 0} (p : Ports W) where
  pub pic_remap : ℕ → ℕ → W → W
  pic_remap offset1 offset2 w =
      let a1 = p.inb pic1_data w in
      let a2 = p.inb pic2_data a1.1 in
      let w1 = p.outb pic2_command icw1 (p.outb pic1_command icw1 a2.1) in
      let w2 = p.outb pic2_data (u8 offset2) (p.outb pic1_data (u8 offset1) w1) in
      let w3 = p.outb pic2_data 2 (p.outb pic1_data 4 w2) in
      let w4 = p.outb pic2_data icw4_8086 (p.outb pic1_data icw4_8086 w3) in
      p.outb pic2_data a2.0 (p.outb pic1_data a1.0 w4)

  pub pic_disable : W → W
  pic_disable w = p.outb pic2_data 0xff (p.outb pic1_data 0xff w)

  pub pic_set_mask : ℕ → W → W
  pic_set_mask irq w =
      let r = p.inb (data_port irq) w in
      p.outb (data_port irq) (u8 (bit_or r.0 (2 ^ line_of irq))) r.1

  -- `~(1 << irq)` is an `int`.
  pub pic_clear_mask : ℕ → W → W
  pic_clear_mask irq w =
      let r = p.inb (data_port irq) w in
      p.outb (data_port irq) (u8 (bit_and r.0 (2 ^ 32 - 1 - 2 ^ line_of irq))) r.1
