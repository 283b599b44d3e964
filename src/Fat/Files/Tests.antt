-- ===== src/Fat/Files/Tests.antt =====
-- A disk in memory with one file, and the theorems applied to it.
use nedoos.Prelude.{◌≡◌, refl, true, [], ◌∷◌, ◌==◌, leb, ltb, ◌&&◌, ◌||◌, if◌then◌else◌, arith}
use nedoos.Drivers.Ramdisk.{Sectors, sector, tabulate, sector_size}
use nedoos.Fat.Files.{Files, word, is_file}
use nedoos.Fat.Files.Directory.{Entry, read_entry, find_entry}
use nedoos.Fat.Files.Directory.Search.{FindResult, find_entry-Result}

-- The root directory is in sector 19, with the file A of 3 bytes in cluster 2; all else is zero.
abbrev disk : Sectors
disk n i =
    if n == 19
    then (if i == 0
        then 65
        else if (leb 1 i && ltb i 11) || (i == 11)
        then 32
        else if i == 26
        then 2
        else if i == 28
        then 3
        else 0)
    else if i == 11
    then 32
    else 0

abbrev files : Files Sectors
files = record {
  volume = record {
    mounted = true;
    root_sector = 19;
    fat_sector = 1;
    data_sector = 33;
    bytes_per_sector = 512;
    sectors_per_cluster = 1;
    root_entries = 224;
    current_dir_cluster = 0;
    current_path = 47 ∷ [];
  };
  console = record { video = λ i. 0; row = 0; col = 0; current_color = 7 };
  disk = disk;
}

abbrev file : Entry
file = read_entry (sector disk 19) 0

find_entry-Result_example :
    FindResult
      (is_file (65 ∷ []))
      (sector disk 19)
      0
      16
      (find_entry (is_file (65 ∷ [])) (sector disk 19) 16 0)
find_entry-Result_example =
    find_entry-Result (is_file (65 ∷ [])) (sector disk 19) 16 0 16 (omega arith)
      (omega (arith, sector_size disk 19))

boot_word : word (sector disk 0) 11 ≡ 32
unfolding sector tabulate
boot_word = refl
