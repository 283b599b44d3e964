-- ===== src/Drivers/Disk.antt =====
-- kernel/kernel.c: what the file system relies on of `ata_read` and `ata_write`: whole sectors of 512 bytes, by number.
use nedoos.Prelude.{ℕ, ◌^◌, ◌<◌, ◌≡◌, List, length, IsBytes, get_or, ◌==◌, if◌then◌else◌}

-- A driver over the machine state `W`. `ata_read` returns its status, the buffer that it fills and
-- the new state. `sector` is the content of the disk; sector numbers have 28 bits.
pub record Disk (W : Type 0) : Type 0 where
  pub ata_read : ℕ → W → ℕ × List ℕ × W
  pub ata_write : ℕ → List ℕ → W → ℕ × W
  pub sector : W → ℕ → List ℕ
  pub sector_size : (w : W) (n : ℕ) → length (sector w n) ≡ 512
  pub sector-IsBytes : (w : W) (n : ℕ) → IsBytes (λ i. get_or (sector w n) i 0)
  pub read_status : (n : ℕ) (w : W) → (ata_read n w).0 ≡ 0
  pub read_buffer : (n : ℕ) (w : W) → n < 2 ^ 28 → (ata_read n w).1 ≡ sector w n
  pub read_keeps : (n m : ℕ) (w : W) → sector (ata_read n w).2 m ≡ sector w m
  pub write_sector :
      (n m : ℕ) (buf : List ℕ) (w : W)
      → n < 2 ^ 28
      → length buf ≡ 512
      → IsBytes (λ i. get_or buf i 0)
      → sector (ata_write n buf w).1 m ≡ (if m == n then buf else sector w m)
