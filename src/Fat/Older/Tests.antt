-- ===== src/Fat/Older/Tests.antt =====
-- A file of two clusters, 2 and 3, of which 100 bytes are wanted.
use nedoos.Prelude.{ℕ, ◌≡◌, refl, true, List, [], ◌∷◌, some, ◌>>=◌, ◌==◌, if◌then◌else◌, arith}
use nedoos.Fat.Table.{word_at}
use nedoos.Console.{Console, print, print_dec}
use nedoos.Fat.Older.Listing.{size_text}
use nedoos.Fat.Older.Listing.Numeral.{size_text-print_dec}
use nedoos.Fat.Older.{FatFs, Reading, begin, read_clusters}
use nedoos.Fat.Older.Chain.{IsReadable, IsChain, sectors_of, link}
use nedoos.Fat.Older.Sizes.{contents, read_clusters-ragged}

abbrev floppy : FatFs
floppy = record {
  bytes_per_sector = 512;
  sectors_per_cluster = 1;
  root_entries = 224;
  fat_start = 1;
  root_start = 19;
  data_start = 33;
  mounted = true;
}

-- The entries 2 and 3 of the table are 3 and 0xFF8.
abbrev sector : ℕ → List ℕ
sector n = if n == 1 then 0 ∷ 0 ∷ 0 ∷ 3 ∷ 0x80 ∷ 0xff ∷ [] else n ∷ []

abbrev read : ℕ → ℕ → ℕ × List ℕ × ℕ
read n w = (0, sector n, w)

abbrev readable : IsReadable read sector
readable n w = refl

two_clusters : IsChain read sector readable floppy 2 (3 ∷ [])
unfolding link word_at
two_clusters = (omega arith, refl, (omega arith, (0xff8, refl, omega arith)))

read_clusters-ragged_example :
    (r : Reading ℕ) × (read_clusters read floppy 3 2 (begin read floppy 0 100) ≡ some r)
    × (r.output ≡ contents sector (sectors_of read sector readable floppy 2 (3 ∷ [])))
read_clusters-ragged_example =
    read_clusters-ragged read sector readable floppy refl (3 ∷ []) 2 3 100 0 two_clusters
      (omega arith) (omega arith) (omega arith)

abbrev empty : Console
empty = record { video = λ i. 0; row = 0; col = 0; current_color = 7 }

size_text-print_dec_example :
    print_dec 1440 empty ≡ (size_text 1440 >>= λ text. some (print text empty))
size_text-print_dec_example = size_text-print_dec 1440 empty (omega arith)
