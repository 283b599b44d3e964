-- ===== src/Drivers/Floppy/Command.antt =====
-- The command that `fdc_read_sector` sends, and the sector that it names.
use nedoos.Prelude.{
  ℕ, zero, suc, ◌+◌, ◌-◌, ◌*◌, ◌≤◌, ◌<◌, ◌≡◌, ◌≢◌, refl, sym, ap, ◌∙◌, not, List, [], ◌∷◌, ◌++◌,
  length, bit_and, ◌==◌, arith, if-cases,
}
use nedoos.Drivers.Ata.{Ports}
use nedoos.Drivers.Floppy.{
  wait_status, fdc_wait_ready, fdc_send_command, fdc_read_data, send_all, read_all, fdc_reset,
  fdc_seek, fdc_read_sector, read_bytes, track_of, sector_of, fdc_fifo, fdc_msr,
}

-- `sent` lists the bytes that went to the data port; reading changes nothing of it.
pub record IsLogged {W : Type 0} (p : Ports W) (sent : W → List ℕ) : Type 0 where
  pub outb_fifo : (v : ℕ) (w : W) → sent (p.outb fdc_fifo v w) ≡ sent w ++ v ∷ []
  pub inb_keeps : (port : ℕ) (w : W) → sent (p.inb port w).1 ≡ sent w

append_assoc : (a b c : List ℕ) → (a ++ b) ++ c ≡ a ++ (b ++ c)
append_assoc [] b c = refl
append_assoc (x ∷ a) b c = ap (λ (s : List ℕ). x ∷ s) (append_assoc a b c)

append_empty : (a : List ℕ) → a ++ [] ≡ a
append_empty [] = refl
append_empty (x ∷ a) = ap (λ (s : List ℕ). x ∷ s) (append_empty a)

module _ {W : Type 0} (p : Ports W) (sent : W → List ℕ) (h : IsLogged p sent) where
  wait_status-sent : (bits n : ℕ) (w : W) → sent (wait_status p bits n w) ≡ sent w
  unfolding wait_status
  wait_status-sent bits zero w = refl
  wait_status-sent bits (suc n) w =
      if-cases (λ (t : W). sent t ≡ sent w) (not (bit_and (p.inb fdc_msr w).0 bits == 0)) _ _
        (λ _. h.inb_keeps fdc_msr w)
        (λ _. wait_status-sent bits n (p.inb fdc_msr w).1 ∙ h.inb_keeps fdc_msr w)

  wait_ready-sent : (w : W) → sent (fdc_wait_ready p w) ≡ sent w
  unfolding fdc_wait_ready
  wait_ready-sent w = wait_status-sent 0x80 10000 w

  send_command-sent : (cmd : ℕ) (w : W) → sent (fdc_send_command p cmd w) ≡ sent w ++ cmd ∷ []
  unfolding fdc_send_command
  send_command-sent cmd w =
      h.outb_fifo cmd _ ∙ ap (λ (s : List ℕ). s ++ cmd ∷ []) (wait_ready-sent w)

  read_data-sent : (w : W) → sent (fdc_read_data p w).1 ≡ sent w
  unfolding fdc_read_data
  read_data-sent w = h.inb_keeps fdc_fifo _ ∙ wait_ready-sent w

  send_all-sent : (cmds : List ℕ) (w : W) → sent (send_all p cmds w) ≡ sent w ++ cmds
  unfolding send_all
  send_all-sent [] w = sym (append_empty (sent w))
  send_all-sent (cmd ∷ cmds) w =
      send_all-sent cmds (fdc_send_command p cmd w)
      ∙ ap (λ (s : List ℕ). s ++ cmds) (send_command-sent cmd w)
      ∙ append_assoc (sent w) (cmd ∷ []) cmds

  read_all-sent : (n : ℕ) (w : W) → sent (read_all p n w).1 ≡ sent w
  unfolding read_all
  read_all-sent zero w = refl
  read_all-sent (suc n) w = read_all-sent n (fdc_read_data p w).1 ∙ read_data-sent w

  length-read_all : (n : ℕ) (w : W) → length (read_all p n w).0 ≡ n
  unfolding read_all
  length-read_all zero w = refl
  length-read_all (suc n) w = ap suc (length-read_all n (fdc_read_data p w).1)

  -- `fdc_read_sector` returns 512 bytes, and the last command that it sends is the one that reads
  -- the sector; its head is 0, whatever the number.
  pub fdc_read_sector-command :
      (lba : ℕ) (w : W)
      → (length (fdc_read_sector p lba w).1 ≡ 512)
        × ((before : List ℕ) × (sent (fdc_read_sector p lba w).2 ≡ before ++ read_bytes lba))
  unfolding fdc_read_sector
  fdc_read_sector-command lba w =
      let w1 : W = fdc_seek p (track_of lba) (fdc_reset p w) in
      let w2 : W = send_all p (read_bytes lba) w1 in
      (
        length-read_all 512 w2,
        (
          sent w1,
          read_all-sent 7 (read_all p 512 w2).1
              ∙ read_all-sent 512 w2
              ∙ send_all-sent (read_bytes lba) w1,
        ),
      )

-- The number of the sector on a disk with two heads and 18 sectors to a track, by the documentation
-- of the format.
pub lba_of : ℕ → ℕ → ℕ → ℕ
lba_of track head sector = (track * 2 + head) * 18 + sector - 1

-- From the second track of the first cylinder on another sector is read than the one that is asked for.
pub fdc_read_sector-elsewhere :
    (lba : ℕ) → 18 ≤ lba → lba < 2880 → lba_of (track_of lba) 0 (sector_of lba) ≢ lba
unfolding lba_of
fdc_read_sector-elsewhere lba h small = omega arith
