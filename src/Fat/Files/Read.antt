-- ===== src/Fat/Files/Read.antt =====
-- What `cat` prints.
use nedoos.Prelude.{ℕ, [], ◌∷◌, take, min}
use nedoos.Drivers.Disk.{Disk}
use nedoos.Console.{print}
use nedoos.Fat.Files.{Files, dir_sector, cat_sector}

module _ {W : Type 0} (d : Disk W) where
  -- The screen after the file, and the disk after its two reads.
  abbrev pub shows : Files W → ℕ → ℕ → Files W
  shows s cluster size =
      let w = (d.ata_read (dir_sector s.volume) s.disk).2 in
      let from = cat_sector s.volume cluster in
      let text = take (min size s.volume.bytes_per_sector) (d.sector s.disk from) in
      record s {
        console = print (10 ∷ []) (print text (print (10 ∷ []) s.console));
        disk = (d.ata_read from w).2;
      }
