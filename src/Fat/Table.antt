-- ===== src/Fat/Table.antt =====
-- The file allocation table: entries of 12 bits, two of them in three bytes.
pub mod Packing
pub mod Entry
pub mod Cut
pub mod Update
pub mod Alloc
mod Tests
use nedoos.Prelude.{
  ℕ, zero, suc, ◌+◌, ◌*◌, ◌/◌, ◌%◌, ◌^◌, bit_and, bit_or, Bool, true, false, List, [], ◌∷◌, length,
  Option, none, some, ◌>>=◌, get_elem?, set, ltb, ◌==◌, if◌then◌else◌, u16, u32,
}
use nedoos.Drivers.Disk.{Disk}
use nedoos.Fat.Volume.{Volume}

-- `*(uint16_t*)(buf + off)`; a fault if it reaches outside the buffer.
unfoldable pub word_at : List ℕ → ℕ → Option ℕ
word_at buf off = do lo ← get_elem? buf off; hi ← get_elem? buf (off + 1); some (lo + 256 * hi)

pub set_word : List ℕ → ℕ → ℕ → Option (List ℕ)
set_word buf off w =
    if ltb (off + 1) (length buf)
    then some (set (set buf off (w % 256)) (off + 1) (w / 256 % 256))
    else none

abbrev pub fat_offset : ℕ → ℕ
fat_offset cluster = cluster * 3 / 2

-- The two ways to cut an entry out of its word, and to put it back.
pub unpack : ℕ → ℕ → ℕ
unpack cluster word =
    if bit_and cluster 1 == 0 then bit_and word 0x0fff else bit_and (word / 2 ^ 4) 0x0fff

pub pack : ℕ → ℕ → ℕ → ℕ
pack cluster word next =
    if bit_and cluster 1 == 0
    then u16 (bit_or (bit_and word 0xf000) next)
    else u16 (bit_or (bit_and word 0x000f) (next * 2 ^ 4))

module _ {W : Type 0} (d : Disk W) (v : Volume) where
  abbrev pub fat_sec : ℕ → ℕ
  fat_sec cluster = u32 (v.fat_sector + fat_offset cluster / v.bytes_per_sector)

  abbrev pub fat_off : ℕ → ℕ
  fat_off cluster = fat_offset cluster % v.bytes_per_sector

  -- A division by `bytes_per_sector` of 0 is a fault too.
  pub fat_get_next_cluster : ℕ → W → Option (ℕ × W)
  unfolding word_at unpack
  fat_get_next_cluster cluster w =
      if v.bytes_per_sector == 0
      then none
      else let (status, buf, w') = d.ata_read (fat_sec cluster) w in
        if status == 0
        then (word_at buf (fat_off cluster) >>= λ word. some (unpack cluster word, w'))
        else some (0xff8, w')

  -- The status of `ata_read` is not looked at here.
  pub fat_set_next_cluster : ℕ → ℕ → W → Option W
  unfolding word_at set_word pack
  fat_set_next_cluster cluster next w =
      if v.bytes_per_sector == 0
      then none
      else let (_, buf, w') = d.ata_read (fat_sec cluster) w in
        (word_at buf (fat_off cluster) >>= λ word.
        set_word buf (fat_off cluster) (pack cluster word next) >>= λ buf'.
        some (d.ata_write (fat_sec cluster) buf' w').1)

  -- for (i = ...; i < 512; i++), with `rounds` of them left
  pub alloc_from : ℕ → ℕ → W → Option (ℕ × W)
  unfolding fat_get_next_cluster fat_set_next_cluster
  alloc_from zero i w = some (0, w)
  alloc_from (suc rounds) i w = fat_get_next_cluster i w >>= λ (next, w').
      let rest = alloc_from rounds (i + 1) w' in
      if next == 0 then (fat_set_next_cluster i 0xff8 w' >>= λ w''. some (i, w'')) else rest

  pub fat_alloc_cluster : W → Option (ℕ × W)
  unfolding alloc_from
  fat_alloc_cluster w = alloc_from 510 2 w
