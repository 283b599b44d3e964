-- ===== src/Fat/Older/Listing.antt =====
-- kernel/fs/fat.c: `fat_ls`, which makes the numeral of a size itself.
pub mod Numeral
use nedoos.Prelude.{
  ℕ, zero, suc, ◌+◌, ◌-◌, ◌*◌, ◌/◌, ◌%◌, not, ◌&&◌, List, [], ◌∷◌, Option, none, some, ◌>>=◌, Array,
  update, for_up, ◌==◌, if◌then◌else◌,
}
use nedoos.Console.{Console, print}
use nedoos.Fat.Files.Directory.{Entry, entry_at, is_end, is_deleted, is_directory}
use nedoos.Fat.Older.{FatFs, fat_format_filename, is_label}

-- The digits in `size_str`, the last one first, and their number. `room` counts the places of
-- `size_str` that are left, and writing past them is a fault.
pub store_digits : ℕ → ℕ → Array → ℕ → Option (Array × ℕ)
store_digits room zero size_str j = some (size_str, j)
store_digits zero (suc size) size_str j = none
store_digits (suc room) (suc size) size_str j =
    store_digits room (suc size / 10) (update size_str j (48 + suc size % 10)) (j + 1)

-- for (k = 0; k < j/2; k++), the exchange of two places
pub exchange : ℕ → Array → Array
unfolding for_up
exchange j size_str =
    for_up (j / 2) 0 (λ k (a : Array). update (update a k (a (j - 1 - k))) (j - 1 - k) (a k))
      size_str

-- The `n` characters from the place `i` on.
pub text_from : ℕ → ℕ → Array → List ℕ
text_from zero i a = []
text_from (suc n) i a = a i ∷ text_from n (i + 1) a

-- What is in `size_str` before its zero. The zero takes one of the 12 places.
pub size_text : ℕ → Option (List ℕ)
unfolding store_digits exchange text_from
size_text size =
    if size == 0
    then some (48 ∷ [])
    else (store_digits 11 size (λ i. 0) 0 >>= λ r. some (text_from r.1 0 (exchange r.1 r.0)))

abbrev size_start : List ℕ
size_start = 32 ∷ 40 ∷ []

abbrev close_bytes : List ℕ
close_bytes = 32 ∷ 98 ∷ 121 ∷ 116 ∷ 101 ∷ 115 ∷ 41 ∷ 10 ∷ []

-- The line of a file.
pub show_file : Entry → Console → Option Console
unfolding size_text
show_file e c = do
  text ← size_text e.size
  some (
      print close_bytes
        (print text (print size_start (print (fat_format_filename e.name e.ext) c))))

module _ {W : Type 0} (ata_read_sector : ℕ → W → ℕ × List ℕ × W) (fs : FatFs) where
  -- The entries from `i` on, `n` of them left.
  pub list_root : ℕ → ℕ → List ℕ → W → Console → Option (W × Console)
  unfolding show_file
  list_root zero i sector_buffer w c = some (w, c)
  list_root (suc n) i sector_buffer w c =
      let entries_per_sector = fs.bytes_per_sector / 32 in
      let loads = i % entries_per_sector == 0 in
      let r = ata_read_sector (fs.root_start + i / entries_per_sector) w in
      let buf = if loads then r.1 else sector_buffer in
      let w' = if loads then r.2 else w in
      let rest = list_root n (i + 1) buf w' in
      if loads && not (r.0 == 0)
      then some (w', c)
      else (entry_at buf (i % entries_per_sector) >>= λ e.
          if is_end e
          then rest c
          else if is_deleted e
          then rest c
          else if is_label e
          then rest c
          else if is_directory e
          then rest c
          else show_file e c >>= rest)

  pub fat_ls : List ℕ → W → Console → Option (W × Console)
  unfolding list_root
  fat_ls sector_buffer w c =
      if fs.mounted then list_root fs.root_entries 0 sector_buffer w c else some (w, c)
