-- ===== src/Fat/Older/Probe.antt =====
-- kernel/fs/fat.c: `mount_fat`, which looks for the signature of a FAT disk and sets nothing.
mod Shown
use nedoos.Prelude.{
  ℕ, zero, suc, ◌+◌, ◌/◌, ◌%◌, not, Bool, ◌&&◌, List, [], ◌∷◌, Option, none, some, ◌>>=◌, get_or,
  ◌==◌, if◌then◌else◌,
}
use nedoos.Console.{Console, putchar, print, print_dec, hex}

abbrev pub probe_title : List ℕ
probe_title =
    10 ∷ 77 ∷ 111 ∷ 117 ∷ 110 ∷ 116 ∷ 105 ∷ 110 ∷ 103 ∷ 32 ∷ 70 ∷ 65 ∷ 84 ∷ 46 ∷ 46 ∷ 46 ∷ 10 ∷ []

abbrev pub reading : List ℕ
reading =
    82 ∷ 101 ∷ 97 ∷ 100 ∷ 105 ∷ 110 ∷ 103 ∷ 32 ∷ 115 ∷ 101 ∷ 99 ∷ 116 ∷ 111 ∷ 114 ∷ 32 ∷ 48 ∷ 46
    ∷ 46 ∷ 46 ∷ []

abbrev pub fail : List ℕ
fail = 32 ∷ 70 ∷ 65 ∷ 73 ∷ 76 ∷ 10 ∷ []

abbrev pub read_ok : List ℕ
read_ok = 32 ∷ 79 ∷ 75 ∷ 10 ∷ []

abbrev pub dump_title : List ℕ
dump_title = 83 ∷ 101 ∷ 99 ∷ 116 ∷ 111 ∷ 114 ∷ 32 ∷ 48 ∷ 32 ∷ 100 ∷ 117 ∷ 109 ∷ 112 ∷ 58 ∷ 10 ∷ []

abbrev pub found_text : List ℕ
found_text =
    70 ∷ 65 ∷ 84 ∷ 32 ∷ 115 ∷ 105 ∷ 103 ∷ 110 ∷ 97 ∷ 116 ∷ 117 ∷ 114 ∷ 101 ∷ 32 ∷ 102 ∷ 111 ∷ 117
    ∷ 110 ∷ 100 ∷ 33 ∷ 10 ∷ []

abbrev pub missing_text : List ℕ
missing_text =
    78 ∷ 111 ∷ 116 ∷ 32 ∷ 97 ∷ 32 ∷ 70 ∷ 65 ∷ 84 ∷ 32 ∷ 100 ∷ 105 ∷ 115 ∷ 107 ∷ 46 ∷ 32 ∷ 66 ∷ 121
    ∷ 116 ∷ 101 ∷ 115 ∷ 32 ∷ 53 ∷ 52 ∷ 45 ∷ 53 ∷ 54 ∷ 58 ∷ 32 ∷ []

-- Two hexadecimal digits.
abbrev pub put_byte : ℕ → Console → Console
put_byte b c = putchar (get_or hex (b % 16) 0) (putchar (get_or hex (b / 16) 0) c)

-- A sector has 512 bytes.
abbrev pub byte_at : List ℕ → ℕ → ℕ
byte_at sector i = get_or sector i 0

-- What is printed before the byte `i`: the offset of a row, if it begins one.
pub row_start : ℕ → Console → Option Console
row_start i c =
    if i % 16 == 0
    then (print_dec i (print (10 ∷ []) c) >>= λ c'. some (print (58 ∷ 32 ∷ []) c'))
    else some c

-- The dump of the bytes from `i` on, `n` of them left.
pub dump : ℕ → ℕ → List ℕ → Console → Option Console
unfolding row_start
dump zero i sector c = some c
dump (suc n) i sector c =
    row_start i c >>= λ c'. dump n (i + 1) sector (putchar 32 (put_byte (byte_at sector i) c'))

-- The bytes 54 to 56 are `FAT`.
abbrev pub has_signature : List ℕ → Bool
has_signature sector =
    (byte_at sector 54 == 70) && (byte_at sector 55 == 65) && (byte_at sector 56 == 84)

pub print_signature : List ℕ → Console → Console
print_signature sector c =
    if has_signature sector
    then print found_text c
    else print (10 ∷ []) (
        put_byte (byte_at sector 56) (
          putchar 32 (
            put_byte (byte_at sector 55)
              (putchar 32 (put_byte (byte_at sector 54) (print missing_text c))))))

module _ {W : Type 0} (fdc_read_sector : ℕ → W → ℕ × List ℕ × W) where
  pub mount_fat : W → Console → Option (W × Console)
  unfolding dump print_signature
  mount_fat w c =
      let (status, sector, w') = fdc_read_sector 0 w in
      let c1 = print reading (print probe_title c) in
      if not (status == 0)
      then some (w', print fail c1)
      else (dump 64 0 sector (print dump_title (print read_ok c1)) >>= λ c2.
          some (w', print_signature sector (print (10 ∷ []) c2)))
