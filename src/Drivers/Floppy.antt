-- ===== src/Drivers/Floppy.antt =====
-- kernel/drivers/ata.c: the floppy controller, over the instructions that reach the ports.
pub mod Command
mod Tests
use nedoos.Prelude.{
  ℕ, zero, suc, ◌+◌, ◌*◌, ◌/◌, ◌%◌, ◌^◌, bit_and, Bool, true, false, not, List, [], ◌∷◌, ◌==◌,
  if◌then◌else◌, u8,
}
use nedoos.Drivers.Ata.{Ports}

abbrev pub fdc_dor : ℕ
fdc_dor = 0x3f2

abbrev pub fdc_msr : ℕ
fdc_msr = 0x3f4

abbrev pub fdc_fifo : ℕ
fdc_fifo = 0x3f5

abbrev pub cmd_read : ℕ
cmd_read = 0x06

abbrev pub cmd_sense_int : ℕ
cmd_sense_int = 0x08

abbrev pub cmd_seek : ℕ
cmd_seek = 0x0f

-- The place of a sector, with head 0 for all.
abbrev pub track_of : ℕ → ℕ
track_of lba = u8 (lba / 18)

abbrev pub sector_of : ℕ → ℕ
sector_of lba = u8 (lba % 18 + 1)

-- The nine bytes of the command that reads a sector: drive and head, track, head, sector, bytes per
-- sector, sectors per track, gap and data length follow its code.
abbrev pub read_bytes : ℕ → List ℕ
read_bytes lba = cmd_read ∷ 0 ∷ track_of lba ∷ 0 ∷ sector_of lba ∷ 2 ∷ 18 ∷ 0x1b ∷ 0xff ∷ []

module _ {W : Type 0} (p : Ports W) where
  -- for (i = 0; i < rounds; i++) if (inb(FDC_MSR) & bits) break
  pub wait_status : ℕ → ℕ → W → W
  wait_status bits zero w = w
  wait_status bits (suc rounds) w =
      let r = p.inb fdc_msr w in
      let rest = wait_status bits rounds r.1 in if not (bit_and r.0 bits == 0) then r.1 else rest

  pub fdc_wait_ready : W → W
  fdc_wait_ready w = wait_status 0x80 10000 w

  pub fdc_send_command : ℕ → W → W
  fdc_send_command cmd w = p.outb fdc_fifo cmd (fdc_wait_ready w)

  pub fdc_read_data : W → ℕ × W
  fdc_read_data w = p.inb fdc_fifo (fdc_wait_ready w)

  pub fdc_reset : W → W
  fdc_reset w =
      let w1 = p.outb fdc_dor 0x0c (p.outb fdc_dor 0 w) in
      let w2 = p.outb fdc_fifo cmd_sense_int (wait_status 0xc0 10000 w1) in
      (fdc_read_data (fdc_read_data w2).1).1

  -- for (i = 0; i < rounds; i++) { outb(FDC_FIFO, SENSE_INT); if (fdc_read_data() & 0x20) break; }
  pub wait_seek : ℕ → W → W
  wait_seek zero w = w
  wait_seek (suc rounds) w =
      let r = fdc_read_data (p.outb fdc_fifo cmd_sense_int w) in
      let rest = wait_seek rounds r.1 in if not (bit_and r.0 0x20 == 0) then r.1 else rest

  pub fdc_seek : ℕ → W → W
  fdc_seek track w =
      let w1 = fdc_send_command track (fdc_send_command 0 (fdc_send_command cmd_seek w)) in
      (fdc_read_data (fdc_read_data (wait_seek 10000 w1)).1).1

  pub send_all : List ℕ → W → W
  send_all [] w = w
  send_all (cmd ∷ cmds) w = send_all cmds (fdc_send_command cmd w)

  -- n calls of `fdc_read_data`
  pub read_all : ℕ → W → List ℕ × W
  read_all zero w = ([], w)
  read_all (suc n) w =
      let r = fdc_read_data w in let rest = read_all n r.1 in (r.0 ∷ rest.0, rest.1)

  pub fdc_read_sector : ℕ → W → ℕ × List ℕ × W
  fdc_read_sector lba w =
      let w1 = fdc_seek (track_of lba) (fdc_reset w) in
      let r = read_all 512 (send_all (read_bytes lba) w1) in (0, r.0, (read_all 7 r.1).1)
