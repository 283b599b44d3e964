-- ===== src/Fat/Editor/Save.antt =====
-- Ctrl+S: the text goes to a cluster that was free.
use nedoos.Prelude.{
  ℕ, zero, suc, ◌+◌, ◌^◌, ◌≤◌, ◌<◌, ◌≡◌, ◌≢◌, ap, ◌∙◌, true, Array, get_or, ltb, if◌then◌else◌, u8,
  arith,
}
use nedoos.Drivers.Disk.{Disk}
use nedoos.Fat.Volume.{Volume}
use nedoos.Fat.Table.{fat_sec}
use nedoos.Fat.Table.Entry.{IsFat12, entry}
use nedoos.Fat.Table.Alloc.{AllTaken}
use nedoos.Fat.Files.{cat_sector}
use nedoos.Fat.Editor.{Editor, sector_from}

pub get_or-sector_from :
    (n i pos : ℕ) (buffer : Array) (j : ℕ)
    → j < n
    → get_or (sector_from n i pos buffer) j 0 ≡ (if ltb (i + j) pos then u8 (buffer (i + j)) else 0)
unfolding sector_from
get_or-sector_from zero i pos buffer j h = absurd (omega arith)
get_or-sector_from (suc n) i pos buffer zero h =
    ap (λ (k : ℕ). if ltb k pos then u8 (buffer k) else 0) (omega arith)
get_or-sector_from (suc n) i pos buffer (suc j) h =
    get_or-sector_from n (i + 1) pos buffer j (omega arith)
    ∙ ap (λ (k : ℕ). if ltb k pos then u8 (buffer k) else 0) (omega arith)

-- The first free cluster, and where its sector is: on the disk, and not the one of its entry.
pub record HasRoom {W : Type 0} (d : Disk W) (v : Volume) (w : W) (i : ℕ) : Type 0 where
  pub mounted : v.mounted ≡ true
  pub fat12 : IsFat12 v
  pub above : 2 ≤ i
  pub below : i < 341
  pub free : entry d v w i ≡ 0
  pub first : AllTaken d v w 2 i
  pub on_disk : cat_sector v i < 2 ^ 28
  pub no_table : cat_sector v i ≢ fat_sec d v i

-- The text was written to the sector of the cluster `i`, and only the table's entry changed beside.
pub record Saves {W : Type 0} (d : Disk W) (s : Editor W) (i : ℕ) (t : Editor W) : Type 0 where
  pub content :
      d.sector t.files.disk (cat_sector s.files.volume i) ≡ sector_from 512 0 s.pos s.buffer
  pub others :
      (n : ℕ)
      → n ≢ cat_sector s.files.volume i
      → n ≢ fat_sec d s.files.volume i
      → d.sector t.files.disk n ≡ d.sector s.files.disk n
  pub keeps : t.buffer ≡ s.buffer
