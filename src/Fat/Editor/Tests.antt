-- ===== src/Fat/Editor/Tests.antt =====
-- Two letters on an empty disk.
use nedoos.Prelude.{ℕ, true, List, [], ◌∷◌}
use nedoos.Drivers.Ramdisk.{Sectors}
use nedoos.Console.{Console}
use nedoos.Fat.Volume.{Volume}
use nedoos.Fat.Editor.{Editor}

abbrev floppy : Volume
floppy = record {
  mounted = true;
  root_sector = 19;
  fat_sector = 1;
  data_sector = 33;
  bytes_per_sector = 512;
  sectors_per_cluster = 1;
  root_entries = 224;
  current_dir_cluster = 0;
  current_path = 47 ∷ [];
}

abbrev zeros : Sectors
zeros n i = 0

abbrev screen : Console
screen = record { video = λ i. 0; row = 0; col = 0; current_color = 7 }

abbrev editor : Editor Sectors
editor = record {
  files = record { volume = floppy; console = screen; disk = zeros };
  buffer = λ i. 0;
  pos = 0;
}

abbrev letters : List ℕ
letters = 72 ∷ 105 ∷ []
