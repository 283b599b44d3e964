-- ===== src/Fat/Files/Mount.antt =====
-- What `mount` makes of a boot sector.
use nedoos.Prelude.{
  ℕ, ◌+◌, ◌-◌, ◌*◌, ◌/◌, ◌≤◌, ◌<◌, ◌≡◌, ◌≢◌, refl, true, List, some, get_or, arith, ne→==,
}
use native.Mathlib.Nat.{div-lt_iff_lt-mul}
use nedoos.Fat.Volume.{Volume}
use nedoos.Fat.Files.{word, volume_of, geometry}

-- The root directory is the least number of whole sectors that holds its entries of 32 bytes each,
-- and the data area begins after it; the sectors of the file allocation tables end before it.
pub record Geometry (sec : List ℕ) (v : Volume) : Type 0 where
  pub mounted : v.mounted ≡ true
  pub tables : v.root_sector ≡ v.fat_sector + get_or sec 16 0 * word sec 22
  pub ordered : v.root_sector ≤ v.data_sector
  pub enough : v.root_entries * 32 ≤ (v.data_sector - v.root_sector) * v.bytes_per_sector
  pub least :
      (n : ℕ) → v.root_entries * 32 ≤ n * v.bytes_per_sector → v.data_sector - v.root_sector ≤ n
  pub at_root : v.current_dir_cluster ≡ 0

round_up_enough : (x b : ℕ) → b ≢ 0 → x ≤ (x + b - 1) / b * b
round_up_enough x b h = omega arith

round_up_least : (x b n : ℕ) → b ≢ 0 → x ≤ n * b → (x + b - 1) / b ≤ n
round_up_least x b n h e =
    let room : x + b - 1 < (n + 1) * b = omega (arith, h, e, mul_suc) in
    let below : (x + b - 1) / b < n + 1 = (div-lt_iff_lt-mul (omega (arith, h))).1 room in
    omega (arith, below)
  where
    mul_suc : (n + 1) * b ≡ n * b + b
    mul_suc = grind arith

-- `mount` reads the geometry from the boot sector: the first table after the reserved sectors, the
-- root directory after the tables, and the data area after the least whole number of sectors that
-- holds the root directory's entries of 32 bytes each. It faults only if a sector has no bytes.
pub geometry-Geometry :
    (sec : List ℕ) → word sec 11 ≢ 0 → (v' : Volume) × (geometry sec ≡ some v') × Geometry sec v'
unfolding geometry
geometry-Geometry sec h =
    let bytes : ℕ = word sec 11 in
    let entries : ℕ = word sec 17 in
    let start : ℕ = word sec 14 + get_or sec 16 0 * word sec 22 in
    let size : ℕ = (entries * 32 + bytes - 1) / bytes in
    let rest : start + size - start ≡ size = omega arith in
    (
      volume_of sec,
      rw (ne→== bytes 0 h) refl,
      record {
        mounted = refl;
        tables = refl;
        ordered = omega arith;
        enough = rw rest (round_up_enough (entries * 32) bytes h);
        least = λ n e. rw rest (round_up_least (entries * 32) bytes n h e);
        at_root = refl;
      },
    )
