-- ===== src/Fat/Table/Packing.antt =====
-- Masks and shifts of the 12-bit entries, as arithmetic.
use nedoos.Prelude.{
  ℕ, ◌+◌, ◌*◌, ◌/◌, ◌%◌, ◌^◌, ◌<◌, ◌≡◌, bit_and, bit_or, ◌==◌, if◌then◌else◌, u16, arith, ap, ap₂,
}
use nedoos.Prelude.Bits.{
  bit_and_mask, bit_and_fields, bit_and-zero, bit_or_fields, bit_or_disjoint, bit_or-zero,
  zero-bit_or,
}
use nedoos.Fat.Table.{unpack, pack}

pub unpack_lem :
    (c word : ℕ) → unpack c word ≡ (if c % 2 == 0 then word % 4096 else word / 16 % 4096)
unfolding unpack
unpack_lem c word =
    ground (arith, bit_and_mask 1 c, bit_and_mask 12 word, bit_and_mask 12 (word / 16))

high_nibble : (word : ℕ) → word < 65536 → bit_and word 0xf000 ≡ word / 4096 * 4096
high_nibble word h = omega (
  arith,
  bit_and_fields 12 (word / 4096) 15 (word % 4096) 0 (omega arith) (omega arith),
  bit_and_mask 4 (word / 4096),
  bit_and-zero (word % 4096),
  ap (λ (t : ℕ). bit_and t 0xf000) (whole word),
)
  where
    whole : (n : ℕ) → n ≡ n / 4096 * 2 ^ 12 + n % 4096
    whole n = omega arith

even_word :
    (word next : ℕ)
    → word < 65536
    → next < 4096
    → u16 (bit_or (bit_and word 0xf000) next) ≡ word / 4096 * 4096 + next
even_word word next h p =
    rw (high_nibble word h, bit_or_disjoint 12 (word / 4096) next (omega arith)) (omega arith)

odd_word :
    (word next : ℕ)
    → next < 4096
    → u16 (bit_or (bit_and word 0x000f) (next * 2 ^ 4)) ≡ next * 16 + word % 16
odd_word word next p = rw (bit_and_mask 4 word) (
    omega (
      arith,
      bit_or_fields 4 0 next (word % 16) 0 (omega arith) (omega arith),
      bit_or-zero (word % 16),
      zero-bit_or next,
      ap₂ (λ (s t : ℕ). bit_or s t) (low (word % 16)) (high next),
    ))
  where
    low : (n : ℕ) → n ≡ 0 * 2 ^ 4 + n
    low n = omega arith

    high : (n : ℕ) → n * 2 ^ 4 ≡ n * 2 ^ 4 + 0
    high n = omega arith

-- The new word holds the entry in its own bits, and keeps the four bits of the neighbour.
pub pack_lem :
    (c word next : ℕ)
    → word < 65536
    → next < 4096
    → pack c word next ≡ (if c % 2 == 0 then word / 4096 * 4096 + next else next * 16 + word % 16)
unfolding pack
pack_lem c word next h p =
    ground (arith, bit_and_mask 1 c, even_word word next h p, odd_word word next p)
