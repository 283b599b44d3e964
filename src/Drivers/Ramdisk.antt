-- ===== src/Drivers/Ramdisk.antt =====
-- A disk in memory, which meets the interface: the sectors are arrays, read back as bytes.
use nedoos.Prelude.{
  ℕ, zero, suc, ◌%◌, ◌^◌, ◌<◌, ◌≡◌, refl, ap, ap₂, List, [], ◌∷◌, length, IsBytes, get_or, update,
  ◌==◌, if◌then◌else◌, arith, Bool-cases, inl, inr,
}
use nedoos.Drivers.Disk.{Disk}

unfoldable pub tabulate : ℕ → (ℕ → ℕ) → List ℕ
tabulate zero f = []
tabulate (suc n) f = f 0 ∷ tabulate n (λ i. f (suc i))

length-tabulate : (n : ℕ) (f : ℕ → ℕ) → length (tabulate n f) ≡ n
unfolding tabulate
length-tabulate zero f = refl
length-tabulate (suc n) f = ap suc (length-tabulate n (λ i. f (suc i)))

pub get_or-tabulate : (n : ℕ) (f : ℕ → ℕ) (i : ℕ) → i < n → get_or (tabulate n f) i 0 ≡ f i
unfolding tabulate
get_or-tabulate zero f i h = absurd (omega arith)
get_or-tabulate (suc n) f zero h = refl
get_or-tabulate (suc n) f (suc i) h = get_or-tabulate n (λ i. f (suc i)) i (omega arith)

tabulate-IsBytes : (n : ℕ) (f : ℕ → ℕ) → IsBytes f → IsBytes (λ i. get_or (tabulate n f) i 0)
unfolding tabulate
tabulate-IsBytes zero f h i = omega arith
tabulate-IsBytes (suc n) f h zero = h 0
tabulate-IsBytes (suc n) f h (suc i) = tabulate-IsBytes n (λ i. f (suc i)) (λ i. h (suc i)) i

tabulate-get_or :
    (n : ℕ) (buf : List ℕ) (f : ℕ → ℕ)
    → length buf ≡ n
    → ((i : ℕ) → f i ≡ get_or buf i 0)
    → tabulate n f ≡ buf
unfolding tabulate
tabulate-get_or zero [] f h e = refl
tabulate-get_or zero (x ∷ buf) f h e = absurd (omega arith)
tabulate-get_or (suc n) [] f h e = absurd (omega arith)
tabulate-get_or (suc n) (x ∷ buf) f h e =
    ap₂ ◌∷◌ (e 0) (tabulate-get_or n buf (λ i. f (suc i)) (omega arith) (λ i. e (suc i)))

abbrev pub Sectors : Type 0
Sectors = ℕ → ℕ → ℕ

unfoldable pub sector : Sectors → ℕ → List ℕ
unfolding tabulate
sector w n = tabulate 512 (λ i. w n i % 256)

unfoldable pub write : ℕ → List ℕ → Sectors → Sectors
write n buf w = update w n (λ i. get_or buf i 0)

pub sector-write_any :
    (n m : ℕ) (buf : List ℕ) (w : Sectors)
    → length buf ≡ 512
    → IsBytes (λ i. get_or buf i 0)
    → sector (write n buf w) m ≡ (if m == n then buf else sector w m)
unfolding sector write
sector-write_any n m buf w size bytes = elim (Bool-cases (m == n)) [
  | inl e ↦
      rw e (tabulate-get_or 512 buf (λ i. get_or buf i 0 % 256) size (λ i. omega (arith, bytes i)))
  | inr e ↦ rw e refl
]

pub sector-write :
    (n m : ℕ) (buf : List ℕ) (w : Sectors)
    → n < 2 ^ 28
    → length buf ≡ 512
    → IsBytes (λ i. get_or buf i 0)
    → sector (write n buf w) m ≡ (if m == n then buf else sector w m)
sector-write n m buf w lt size bytes = sector-write_any n m buf w size bytes

pub sector_size : (w : Sectors) (n : ℕ) → length (sector w n) ≡ 512
unfolding sector
sector_size w n = length-tabulate 512 (λ i. w n i % 256)

pub sector-IsBytes : (w : Sectors) (n : ℕ) → IsBytes (λ i. get_or (sector w n) i 0)
unfolding sector
sector-IsBytes w n = tabulate-IsBytes 512 (λ i. w n i % 256) (λ i. omega arith)

abbrev pub ramdisk : Disk Sectors
ramdisk = record {
  ata_read = λ n w. (0, sector w n, w);
  ata_write = λ n buf w. (0, write n buf w);
  sector = sector;
  sector_size = sector_size;
  sector-IsBytes = sector-IsBytes;
  read_status = λ n w. refl;
  read_buffer = λ n w h. refl;
  read_keeps = λ n m w. refl;
  write_sector = sector-write;
}
