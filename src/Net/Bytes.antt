-- ===== src/Net/Bytes.antt =====
-- kernel/net/network.c: byte order and checksum. The machine stores numbers low byte first.
pub mod Order
pub mod Checksum
mod Tests
use nedoos.Prelude.{
  ℕ, zero, suc, ◌+◌, ◌-◌, ◌*◌, ◌/◌, ◌%◌, ◌^◌, bit_and, bit_or, List, [], ◌∷◌, Option, none, some,
  ◌>>=◌, ◌==◌, if◌then◌else◌, u16, u32,
}

unfoldable pub ntohs : ℕ → ℕ
ntohs n = u16 (bit_or (n / 2 ^ 8) (n * 2 ^ 8))

pub htons : ℕ → ℕ
unfolding ntohs
htons n = ntohs n

unfoldable pub ntohl : ℕ → ℕ
ntohl n =
    bit_or
      (bit_or (bit_or (n / 2 ^ 24) (bit_and (n / 2 ^ 8) 0xff00))
        (bit_and (u32 (n * 2 ^ 8)) 0xff0000))
      (u32 (n * 2 ^ 24))

pub htonl : ℕ → ℕ
unfolding ntohl
htonl n = ntohl n

-- How a `uint16_t` and a `uint32_t` stand in memory.
abbrev pub store16 : ℕ → List ℕ
store16 n = n % 256 ∷ n / 256 % 256 ∷ []

abbrev pub store32 : ℕ → List ℕ
store32 n = n % 256 ∷ n / 256 % 256 ∷ n / 65536 % 256 ∷ n / 16777216 % 256 ∷ []

-- sum += addr[i] for the whole words, and then the last byte if there is one more.
pub sum_words : ℕ → List ℕ → ℕ
sum_words sum [] = sum
sum_words sum (b ∷ []) = u32 (sum + b)
sum_words sum (lo ∷ hi ∷ rest) = sum_words (u32 (sum + (lo + 256 * hi))) rest

-- while (sum >> 16) sum = (sum & 0xFFFF) + (sum >> 16), for at most `fuel` rounds
pub fold_carries : ℕ → ℕ → Option ℕ
fold_carries zero sum = none
fold_carries (suc fuel) sum =
    let rest = fold_carries fuel (u32 (bit_and sum 0xffff + sum / 2 ^ 16)) in
    if sum / 2 ^ 16 == 0 then some sum else rest

-- `~sum` cut to 16 bits. Three rounds are enough.
pub checksum : List ℕ → Option ℕ
unfolding sum_words fold_carries
checksum addr = fold_carries 3 (sum_words 0 addr) >>= λ sum. some (0xffff - sum % 2 ^ 16)
