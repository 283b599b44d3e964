-- ===== src/Fat/Volume.antt =====
-- The global variables that `mount` sets and the file commands read.
use nedoos.Prelude.{ℕ, Bool, List}

pub record Volume : Type 0 where
  pub mounted : Bool
  pub root_sector : ℕ
  pub fat_sector : ℕ
  pub data_sector : ℕ
  pub bytes_per_sector : ℕ
  pub sectors_per_cluster : ℕ
  pub root_entries : ℕ
  pub current_dir_cluster : ℕ
  pub current_path : List ℕ
