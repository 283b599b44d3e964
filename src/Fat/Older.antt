-- ===== src/Fat/Older.antt =====
-- kernel/fs/fat.c: the older FAT driver, which follows the chain of a file's clusters.
-- `ata_read_sector` is a parameter. A variable that is read before it is set is a fault, and so is an
-- access outside `sector_buffer`. What a read that fails leaves in the buffer is not modelled.
pub mod Chain
mod Probe
pub mod Listing
pub mod Sizes
mod Tests
use nedoos.Prelude.{
  ℕ, zero, suc, ◌+◌, ◌-◌, ◌*◌, ◌/◌, ◌%◌, ◌^◌, bit_and, min, Bool, true, false, not, ◌&&◌, List, [],
  ◌∷◌, ◌++◌, Option, none, some, ◌>>=◌, get_or, ltb, ◌==◌, if◌then◌else◌, u32,
}
use nedoos.Fat.Table.{word_at}
use nedoos.Fat.Files.Directory.{Entry, entry_at, is_end, is_deleted, is_directory, until_space}

-- The fields of `fat_fs_t` and of its boot sector that are used.
pub record FatFs : Type 0 where
  pub bytes_per_sector : ℕ
  pub sectors_per_cluster : ℕ
  pub root_entries : ℕ
  pub fat_start : ℕ
  pub root_start : ℕ
  pub data_start : ℕ
  pub mounted : Bool

pub fat_format_filename : List ℕ → List ℕ → List ℕ
fat_format_filename fat_name fat_ext =
    until_space fat_name ++ (if get_or fat_ext 0 0 == 32 then [] else 46 ∷ until_space fat_ext)

-- entry->attributes & FAT_ATTR_VOLUME_ID
abbrev pub is_label : Entry → Bool
is_label e = not (bit_and e.attr 0x08 == 0)

-- What has been read: the bytes behind `buffer`, their number, and how many are wanted yet.
pub record Reading (W : Type 0) : Type 0 where
  pub disk : W
  pub output : List ℕ
  pub bytes_read : ℕ
  pub remaining : ℕ

-- What `fat_read` returns: -1, -2 or a number.
pub data ReadResult (W : Type 0) : Type 0 where
  no_disk : ReadResult W
  not_found : ReadResult W
  bytes : Reading W → ReadResult W

-- What the search of the root directory comes to.
pub data Search (W : Type 0) : Type 0 where
  read_failed : Search W
  unset : Search W
  at_entry : Entry → W → Search W

abbrev pub cluster_sector : FatFs → ℕ → ℕ
cluster_sector fs cluster = u32 (fs.data_start + (cluster + 2 ^ 32 - 2) * fs.sectors_per_cluster)

abbrev pub fat_index : ℕ → ℕ
fat_index cluster = cluster * 3 / 2

-- An odd cluster has the high 12 bits.
abbrev pub next_of : ℕ → ℕ → ℕ
next_of cluster word = if bit_and cluster 1 == 0 then bit_and word 0x0fff else word / 2 ^ 4

module _ {W : Type 0} (ata_read_sector : ℕ → W → ℕ × List ℕ × W) (fs : FatFs) where
  -- `remaining` is unsigned: it wraps below 0.
  abbrev pub store_sector : List ℕ → W → Reading W → Reading W
  store_sector buf w r = record {
    disk = w;
    output = r.output ++ buf;
    bytes_read = u32 (r.bytes_read + fs.bytes_per_sector);
    remaining = u32 (r.remaining + (2 ^ 32 - fs.bytes_per_sector));
  }

  -- for (s = ...; s < sectors_per_cluster && remaining > 0; s++), with `n` rounds left. The Boolean
  -- says whether all reads succeeded.
  pub read_cluster : ℕ → ℕ → Reading W → Bool × Reading W
  read_cluster zero sector r = (true, r)
  read_cluster (suc n) sector r =
      let (status, buf, w) = ata_read_sector sector r.disk in
      let rest = read_cluster n (sector + 1) (store_sector buf w r) in
      if r.remaining == 0
      then (true, r)
      else if status == 0
      then rest
      else (false, record r { disk = w })

  -- The loop over the clusters, for at most `fuel` of them.
  pub read_clusters : ℕ → ℕ → Reading W → Option (Reading W)
  unfolding read_cluster
  read_clusters zero cluster r = none
  read_clusters (suc fuel) cluster r =
      if ltb 0 r.remaining && ltb cluster 0xff8
      then (let (succeeded, r1) =
            read_cluster fs.sectors_per_cluster (cluster_sector fs cluster) r in
          let fat_sector = fs.fat_start + fat_index cluster / fs.bytes_per_sector in
          let (status, buf, w) = ata_read_sector fat_sector r1.disk in
          if not succeeded
          then some r1
          else if not (status == 0)
          then some (record r1 { disk = w })
          else (word_at buf (fat_index cluster % fs.bytes_per_sector) >>= λ word.
              read_clusters fuel (next_of cluster word) (record r1 { disk = w })))
      else some r

  -- The entries from `i` on, `n` of them left. Names are compared by their first characters.
  pub search_root : ℕ → ℕ → ℕ → List ℕ → W → Option (Search W)
  unfolding entry_at
  search_root zero i first sector_buffer w = some unset
  search_root (suc n) i first sector_buffer w =
      let entries_per_sector = fs.bytes_per_sector / 32 in
      let loads = i % entries_per_sector == 0 in
      let r = ata_read_sector (fs.root_start + i / entries_per_sector) w in
      let buf = if loads then r.1 else sector_buffer in
      let w' = if loads then r.2 else w in
      let rest = search_root n (i + 1) first buf w' in
      if loads && not (r.0 == 0)
      then some read_failed
      else (entry_at buf (i % entries_per_sector) >>= λ e.
          if is_end e
          then rest
          else if is_deleted e
          then rest
          else if is_label e
          then rest
          else if is_directory e
          then rest
          else if get_or e.name 0 0 == first
          then some (at_entry e w')
          else rest)

  abbrev pub begin : W → ℕ → Reading W
  begin w wanted = record { disk = w; output = []; bytes_read = 0; remaining = wanted }

  -- What follows the search. An entry that was not found leaves `cluster` unset.
  pub read_entry_at : ℕ → ℕ → Search W → Option (ReadResult W)
  unfolding read_clusters
  read_entry_at fuel max_size read_failed = some no_disk
  read_entry_at fuel max_size unset = none
  read_entry_at fuel max_size (at_entry e w) =
      if e.cluster == 0
      then some not_found
      else (read_clusters fuel e.cluster (begin w (min e.size max_size)) >>= λ r. some (bytes r))

  pub fat_read : ℕ → List ℕ → List ℕ → ℕ → W → Option (ReadResult W)
  unfolding search_root read_entry_at
  fat_read fuel filename sector_buffer max_size w =
      if not fs.mounted
      then some no_disk
      else if fs.bytes_per_sector / 32 == 0
      then none
      else (search_root fs.root_entries 0 (get_or filename 0 0) sector_buffer w >>= λ found.
          read_entry_at fuel max_size found)
