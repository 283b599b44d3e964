-- ===== src/Fat/Table/Entry.antt =====
-- The table as a sequence of bytes that runs through its sectors, and the entries in it.
use nedoos.Prelude.{
  ℕ, zero, suc, ◌+◌, ◌*◌, ◌/◌, ◌%◌, ◌^◌, ◌≤◌, ◌<◌, ◌≡◌, refl, List, [], ◌∷◌, length, none, some,
  get_elem?, get_or, ◌==◌, if◌then◌else◌, arith, get_elem?-eq-get_or,
}
use nedoos.Drivers.Disk.{Disk}
use nedoos.Fat.Volume.{Volume}
use nedoos.Fat.Table.{word_at, fat_offset, fat_sec, fat_off, fat_get_next_cluster}
use nedoos.Fat.Table.Packing.{unpack_lem}

-- The entry's second byte lies in the next sector.
abbrev pub Straddles : ℕ → Type 0
Straddles c = fat_offset c % 512 ≡ 511

word_at-get :
    (buf : List ℕ) (off : ℕ)
    → off + 1 < length buf
    → word_at buf off ≡ some (get_or buf off 0 + 256 * get_or buf (off + 1) 0)
unfolding word_at
word_at-get buf off h =
    rw (get_elem?-eq-get_or buf off 0 (omega arith), get_elem?-eq-get_or buf (off + 1) 0 h)

get_elem?-none : (buf : List ℕ) (i : ℕ) → length buf ≤ i → get_elem? buf i ≡ none
get_elem?-none [] i h = refl
get_elem?-none (x ∷ buf) zero h = absurd (omega arith)
get_elem?-none (x ∷ buf) (suc i) h = get_elem?-none buf i (omega arith)

word_at-none : (buf : List ℕ) (off : ℕ) → length buf ≤ off + 1 → word_at buf off ≡ none
unfolding word_at
word_at-none buf off h = ground (arith, get_elem?-none buf (off + 1) h)

module _ {W : Type 0} (d : Disk W) where
  abbrev pub SameDisk : W → W → Type 0
  SameDisk w w' = (n : ℕ) → d.sector w' n ≡ d.sector w n

module _ {W : Type 0} (d : Disk W) (v : Volume) where
  -- The byte `n` of the table.
  abbrev pub fat_byte : W → ℕ → ℕ
  fat_byte w n = get_or (d.sector w (v.fat_sector + n / 512)) (n % 512) 0

  abbrev pub entry : W → ℕ → ℕ
  entry w c =
      let word = fat_byte w (fat_offset c) + 256 * fat_byte w (fat_offset c + 1) in
      if c % 2 == 0 then word % 4096 else word / 16 % 4096

-- Sectors of 512 bytes, and a table that ends below sector 2 ^ 28.
pub record IsFat12 (v : Volume) : Type 0 where
  pub whole_sector : v.bytes_per_sector ≡ 512
  pub low : v.fat_sector + 192 < 2 ^ 28

module _ {W : Type 0} (d : Disk W) (v : Volume) (f : IsFat12 v) where
  open f use {whole_sector, low}

  pub fat_sec_lem : (c : ℕ) → c < 65536 → fat_sec d v c ≡ v.fat_sector + fat_offset c / 512
  fat_sec_lem c h = rw whole_sector (omega arith)

  pub fat_sec-lt : (c : ℕ) → c < 65536 → fat_sec d v c < 2 ^ 28
  fat_sec-lt c h = omega (arith, fat_sec_lem c h, low)

  -- The word that both functions read.
  pub word_read :
      (c : ℕ) (w : W)
      → c < 65536
      → ¬ Straddles c
      → word_at (d.ata_read (fat_sec d v c) w).1 (fat_off d v c)
        ≡ some (fat_byte d v w (fat_offset c) + 256 * fat_byte d v w (fat_offset c + 1))
  word_read c w h s =
      let same_sector : (fat_offset c + 1) / 512 ≡ fat_offset c / 512 = omega arith in
      let next_byte : (fat_offset c + 1) % 512 ≡ fat_offset c % 512 + 1 = omega arith in
      rw (d.read_buffer _ w (fat_sec-lt c h), fat_sec_lem c h, whole_sector, same_sector, next_byte)
        (word_at-get _ _ (rw d.sector_size (omega arith)))

  pub word_fault :
      (c : ℕ) (w : W)
      → c < 65536
      → Straddles c
      → word_at (d.ata_read (fat_sec d v c) w).1 (fat_off d v c) ≡ none
  word_fault c w h s =
      rw (d.read_buffer _ w (fat_sec-lt c h), whole_sector)
        (word_at-none _ _ (rw d.sector_size (omega arith)))

  -- `fat_get_next_cluster` returns the entry of the cluster and leaves the disk alone.
  pub fat_get_next_cluster_lem :
      (c : ℕ) (w : W)
      → c < 65536
      → ¬ Straddles c
      → (w' : W) × (fat_get_next_cluster d v c w ≡ some (entry d v w c, w')) × SameDisk d w w'
  unfolding fat_get_next_cluster
  fat_get_next_cluster_lem c w h s = (
    (d.ata_read (fat_sec d v c) w).2,
    ground (
      arith,
      whole_sector,
      d.read_status (fat_sec d v c) w,
      word_read c w h s,
      unpack_lem c (fat_byte d v w (fat_offset c) + 256 * fat_byte d v w (fat_offset c + 1)),
    ),
    λ n. d.read_keeps _ n w,
  )

  -- An entry that crosses the end of its sector is read past the end of the buffer.
  pub fat_get_next_cluster_straddling :
      (c : ℕ) (w : W) → c < 65536 → Straddles c → fat_get_next_cluster d v c w ≡ none
  unfolding fat_get_next_cluster
  fat_get_next_cluster_straddling c w h s =
      ground (arith, whole_sector, d.read_status (fat_sec d v c) w, word_fault c w h s)
