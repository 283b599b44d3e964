-- ===== src/Fat/Files.antt =====
-- kernel/kernel.c: the commands `mount`, `ls`, `cat` and `cd`, on the sector that a directory begins
-- with. An access outside the sector buffer is a fault, and so is a division by 0.
pub mod Texts
pub mod Directory
pub mod Mount
pub mod Read
mod Tests
use nedoos.Prelude.{
  ℕ, zero, suc, ◌+◌, ◌-◌, ◌*◌, ◌/◌, ◌%◌, ◌^◌, ◌≤◌, Bool, true, false, not, ◌&&◌, List, [], ◌∷◌,
  ◌++◌, length, take, drop, Option, none, some, ◌>>=◌, get_elem?, get_or, bit_and, ltb, leb, ◌==◌,
  if◌then◌else◌, u16, u32, min,
}
use nedoos.Drivers.Disk.{Disk}
use nedoos.Console.{Console, putchar, print, print_dec, set_color}
use nedoos.Fat.Volume.{Volume}
use nedoos.Fat.Files.Texts.{
  mounting, ok, not_fat, read_error, mount_first, use_cat, not_found, no_directory, dir_mark,
  open_size, close_size,
}
use nedoos.Fat.Files.Directory.{
  Entry, entry_at, is_directory, is_deleted, is_end, full_name, is_prefix, upper, find_entry,
}
use nedoos.Shell.Env.{skip_spaces}

-- `*(uint16_t*)(sec + off)`
abbrev pub word : List ℕ → ℕ → ℕ
word sec off = get_or sec off 0 + 256 * get_or sec (off + 1) 0

-- The state of the commands: the variables, the screen and the disk.
pub record Files (W : Type 0) : Type 0 where
  pub volume : Volume
  pub console : Console
  pub disk : W

abbrev pub root_path : List ℕ
root_path = 47 ∷ []

-- The variables that the boot sector gives. None of the numbers reaches 2 ^ 31.
abbrev pub volume_of : List ℕ → Volume
volume_of sec =
    let bytes = word sec 11 in
    let entries = word sec 17 in
    let root_start = word sec 14 + get_or sec 16 0 * word sec 22 in
    record {
      mounted = true;
      root_sector = root_start;
      fat_sector = word sec 14;
      data_sector = root_start + (entries * 32 + bytes - 1) / bytes;
      bytes_per_sector = bytes;
      sectors_per_cluster = get_or sec 13 0;
      root_entries = entries;
      current_dir_cluster = 0;
      current_path = root_path;
    }

pub geometry : List ℕ → Option Volume
geometry sec = if word sec 11 == 0 then none else some (volume_of sec)

-- sec[54] == 'F' && sec[55] == 'A' && sec[56] == 'T'
abbrev pub is_fat : List ℕ → Bool
is_fat sec = (get_or sec 54 0 == 70) && (get_or sec 55 0 == 65) && (get_or sec 56 0 == 84)

-- Where the sector of the current directory is.
pub dir_sector : Volume → ℕ
dir_sector v =
    if v.current_dir_cluster == 0
    then v.root_sector
    else u32 (v.data_sector + (v.current_dir_cluster + 2 ^ 32 - 2) * v.sectors_per_cluster)

-- while (a[i]) ...; if (i > 0 && dest[i-1] != '/') dest[i++] = '/'; while (b[j]) ...
pub path_join : List ℕ → List ℕ → List ℕ
path_join a b =
    a ++ ((if ltb 0 (length a) && not (get_or a (length a - 1) 0 == 47) then 47 ∷ [] else []) ++ b)

-- The cells of the loop `for (i = 0; i < size && i < bytes_per_sector; i++) putchar(sec[i])`.
pub content : List ℕ → ℕ → Option (List ℕ)
content sec n = if leb n (length sec) then some (take n sec) else none

-- Where the first sector of a cluster is.
unfoldable pub cat_sector : Volume → ℕ → ℕ
cat_sector v cluster = u32 (v.data_sector + (cluster + 2 ^ 32 - 2) * v.sectors_per_cluster)

-- The test of `cat`: a file whose name is the one that is looked for.
pub is_file : List ℕ → Entry → Bool
is_file search e =
    not (is_directory e)
    && is_prefix search (full_name e)
    && (length search == length (full_name e))

-- The test of `cd`: a directory whose name begins with the one that is looked for.
pub is_subdirectory : List ℕ → Entry → Bool
is_subdirectory search e = is_directory e && is_prefix search e.name

module _ {W : Type 0} (d : Disk W) where
  abbrev pub say : List ℕ → Files W → Files W
  say text s = record s { console = print text s.console }

  pub mount_with : ℕ → List ℕ → Files W → Option (Files W)
  unfolding geometry
  mount_with status sec s =
      if not (status == 0)
      then some (say read_error s)
      else if is_fat sec
      then (geometry sec >>= λ v. some (say ok (record s { volume = v })))
      else some (say not_fat s)

  pub mount : Files W → Option (Files W)
  unfolding mount_with
  mount s =
      let r = d.ata_read 0 s.disk in mount_with r.0 r.1 (record (say mounting s) { disk = r.2 })

  -- What `cat` does with the entry: its first sector is read and printed. A cluster 0 counts as not
  -- found.
  pub cat_entry : Option Entry → Files W → Option (Files W)
  unfolding cat_sector content
  cat_entry none s = some (say not_found s)
  cat_entry (some e) s =
      let r = d.ata_read (cat_sector s.volume e.cluster) s.disk in
      let s' = record s { disk = r.2 } in
      if e.cluster == 0
      then some (say not_found s)
      else if not (r.0 == 0)
      then some s'
      else (content r.1 (min e.size s.volume.bytes_per_sector) >>= λ text.
          some (say (10 ∷ []) (say text (say (10 ∷ []) s'))))

  pub cat_named : List ℕ → Files W → Option (Files W)
  unfolding dir_sector is_file cat_entry
  cat_named fname s =
      let r = d.ata_read (dir_sector s.volume) s.disk in
      let s' = record s { disk = r.2 } in
      if not (r.0 == 0)
      then some s'
      else (find_entry (is_file (upper (take 12 fname))) r.1 (s.volume.bytes_per_sector / 32) 0
          >>= λ e. cat_entry e s')

  pub cat_from : List ℕ → Files W → Option (Files W)
  unfolding cat_named
  cat_from [] s = some (say use_cat s)
  cat_from (c ∷ cs) s = cat_named (c ∷ cs) s

  pub cat : List ℕ → Files W → Option (Files W)
  unfolding cat_from
  cat fname s =
      if s.volume.mounted then cat_from (skip_spaces fname) s else some (say mount_first s)

  -- What `cd` does with the entry. A path that does not fit its 256 characters is a fault.
  pub enter_entry : List ℕ → Option Entry → Files W → Option (Files W)
  unfolding path_join
  enter_entry dirname none s = some (say no_directory s)
  enter_entry dirname (some e) s =
      let path = path_join s.volume.current_path dirname in
      if leb (length path) 255
      then some (record s {
        volume = record (s.volume) { current_dir_cluster = e.cluster; current_path = path };
      })
      else none

  pub cd_named : List ℕ → Files W → Option (Files W)
  unfolding dir_sector is_subdirectory enter_entry
  cd_named dirname s =
      let r = d.ata_read (dir_sector s.volume) s.disk in
      let s' = record s { disk = r.2 } in
      if not (r.0 == 0)
      then some s'
      else (find_entry (is_subdirectory (upper (take 8 dirname))) r.1
            (s.volume.bytes_per_sector / 32) 0
          >>= λ e. enter_entry dirname e s')

  pub cd_from : List ℕ → Files W → Option (Files W)
  unfolding cd_named
  cd_from [] s = some (record s {
    volume = record (s.volume) { current_dir_cluster = 0; current_path = root_path };
  })
  cd_from (c ∷ cs) s = cd_named (c ∷ cs) s

  pub cd : List ℕ → Files W → Option (Files W)
  unfolding cd_from
  cd dirname s =
      if s.volume.mounted then cd_from (skip_spaces dirname) s else some (say mount_first s)

  -- One line of `ls`. A size of 2 ^ 32 or more does not occur.
  pub list_entry : Entry → Console → Option Console
  list_entry e c =
      let c1 = set_color (if is_directory e then 0x03 else 0x07) c in
      let c2 = print (full_name e) c1 in
      let c3 = print open_size (if is_directory e then print dir_mark c2 else c2) in
      (print_dec e.size c3 >>= λ c4. some (print close_size c4))

  -- for (i = ...; i < entries_per_sector; i++), with `n` rounds left
  pub list_entries : List ℕ → ℕ → ℕ → Console → Option Console
  unfolding list_entry
  list_entries sec zero i c = some c
  list_entries sec (suc n) i c = entry_at sec i >>= λ e.
      let rest = list_entries sec n (i + 1) c in
      if is_end e
      then some c
      else if is_deleted e
      then rest
      else (list_entry e c >>= λ c'. list_entries sec n (i + 1) c')

  pub ls : Files W → Option (Files W)
  unfolding dir_sector list_entries
  ls s =
      if s.volume.mounted
      then (let r = d.ata_read (dir_sector s.volume) s.disk in
          let s' = record s { disk = r.2 } in
          if not (r.0 == 0)
          then some s'
          else (list_entries r.1 (s.volume.bytes_per_sector / 32) 0 s.console >>= λ c.
              some (record s' { console = c })))
      else some (say mount_first s)
