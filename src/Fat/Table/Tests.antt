-- ===== src/Fat/Table/Tests.antt =====
-- The table on a disk in memory, and the theorems applied to it.
use nedoos.Prelude.{ℕ, ◌+◌, ◌%◌, ◌≡◌, refl, true, [], ◌∷◌, some, arith}
use mathlib.Core.Option
use nedoos.Drivers.Ramdisk.{ramdisk, Sectors, sector, get_or-tabulate}
use nedoos.Fat.Volume.{Volume}
use nedoos.Fat.Table.{fat_offset, fat_get_next_cluster, fat_alloc_cluster, word_at}
use nedoos.Fat.Table.Entry.{IsFat12, fat_byte, entry}
use nedoos.Fat.Table.Alloc.{AllTaken, Takes, fat_alloc_cluster-Takes}

abbrev floppy : Volume
floppy = record {
  mounted = true;
  root_sector = 19;
  fat_sector = 1;
  data_sector = 33;
  bytes_per_sector = 512;
  sectors_per_cluster = 1;
  root_entries = 224;
  current_dir_cluster = 0;
  current_path = 47 ∷ [];
}

floppy-IsFat12 : IsFat12 floppy
floppy-IsFat12 = record { whole_sector = refl; low = omega arith }

-- Every byte of every sector is the same.
abbrev filled : ℕ → Sectors
filled b n i = b

next_of_entry_5 :
    Option.map (λ r. r.0) (fat_get_next_cluster ramdisk floppy 5 (filled 0x21)) ≡ some 0x212
unfolding fat_get_next_cluster word_at sector
next_of_entry_5 = refl

filled-entry : entry ramdisk floppy (filled 0) 2 ≡ 0
unfolding sector
filled-entry = refl

fat_alloc_cluster-Takes_example :
    Takes ramdisk floppy (filled 0) 2 (fat_alloc_cluster ramdisk floppy (filled 0))
fat_alloc_cluster-Takes_example =
    fat_alloc_cluster-Takes ramdisk floppy floppy-IsFat12 2 (filled 0) (omega arith) (omega arith)
      filled-entry (λ j p q. absurd (omega arith))

full_bytes : (n : ℕ) → fat_byte ramdisk floppy (filled 0xff) n ≡ 255
unfolding sector
full_bytes n = get_or-tabulate 512 (λ i. 0xff) (n % 512) (omega arith)

full-AllTaken : AllTaken ramdisk floppy (filled 0xff) 2 341
full-AllTaken j p q e = ground (arith, full_bytes (fat_offset j), full_bytes (fat_offset j + 1))
