-- ===== src/Drivers/Ata.antt =====
-- kernel/kernel.c: `ata_read` and `ata_write`, over the instructions that reach the ports.
pub mod Sector
pub mod Store
pub mod Instance
mod Tests
use nedoos.Prelude.{
  ℕ, zero, suc, ◌+◌, ◌*◌, ◌/◌, ◌%◌, ◌^◌, bit_and, bit_or, Bool, true, false, not, List, [], ◌∷◌,
  get_or, ◌==◌, if◌then◌else◌, u8,
}

-- `inb`, `inw`, `outb` and `outw`, over the state of the machine.
pub record Ports (W : Type 0) : Type 0 where
  pub inb : ℕ → W → ℕ × W
  pub inw : ℕ → W → ℕ × W
  pub outb : ℕ → ℕ → W → W
  pub outw : ℕ → ℕ → W → W

-- (status & 0xC0) == 0x40
abbrev pub is_idle : ℕ → Bool
is_idle status = bit_and status 0xc0 == 0x40

-- status & 0x08
abbrev pub has_data : ℕ → Bool
has_data status = not (bit_and status 0x08 == 0)

module _ {W : Type 0} (p : Ports W) where
  -- for (i = 0; i < rounds; i++) if (ready(inb(0x1F7))) break
  pub wait : (ℕ → Bool) → ℕ → W → W
  wait ready zero w = w
  wait ready (suc rounds) w =
      let r = p.inb 0x1f7 w in let rest = wait ready rounds r.1 in if ready r.0 then r.1 else rest

  -- The address, the count and the command.
  pub select : ℕ → ℕ → W → W
  select lba command w =
      let w1 = p.outb 0x1f6 (u8 (bit_or 0xe0 (bit_and (lba / 2 ^ 24) 0x0f))) w in
      let w2 = p.outb 0x1f2 1 w1 in
      let w3 = p.outb 0x1f3 (u8 lba) w2 in
      let w4 = p.outb 0x1f4 (u8 (lba / 2 ^ 8)) w3 in
      let w5 = p.outb 0x1f5 (u8 (lba / 2 ^ 16)) w4 in p.outb 0x1f7 command w5

  -- for (i = 0; i < n; i++) ((uint16_t*)buf)[i] = inw(0x1F0)
  pub read_words : ℕ → W → List ℕ × W
  read_words zero w = ([], w)
  read_words (suc n) w =
      let r = p.inw 0x1f0 w in
      let rest = read_words n r.1 in (r.0 % 256 ∷ r.0 / 256 % 256 ∷ rest.0, rest.1)

  -- for (i = ...; n rounds left; i++) outw(0x1F0, ((uint16_t*)buf)[i])
  pub write_words : ℕ → ℕ → List ℕ → W → W
  write_words zero i buf w = w
  write_words (suc n) i buf w =
      write_words n (i + 1) buf
        (p.outw 0x1f0 (get_or buf (2 * i) 0 + 256 * get_or buf (2 * i + 1) 0) w)

  pub ata_read : ℕ → W → ℕ × List ℕ × W
  ata_read lba w =
      let w1 = select lba 0x20 (wait is_idle 1000 w) in
      let r = read_words 256 (wait has_data 1000 w1) in (0, r.0, r.1)

  pub ata_write : ℕ → List ℕ → W → ℕ × W
  ata_write lba buf w =
      let w1 = select lba 0x30 (wait is_idle 1000 w) in
      (0, write_words 256 0 buf (wait has_data 1000 w1))
