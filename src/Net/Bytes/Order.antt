-- ===== src/Net/Bytes/Order.antt =====
-- The order of bytes: what `ntohs` and `ntohl` do to the bytes of a number.
use nedoos.Prelude.{
  ℕ, ◌+◌, ◌*◌, ◌/◌, ◌%◌, ◌^◌, ◌<◌, ◌≡◌, refl, ap, ◌∙◌, bit_and, bit_or, arith, u32,
}
use nedoos.Prelude.Bits.{
  bit_and_fields, bit_or_fields, bit_and_mask, bit_and-zero, bit_or-zero, zero-bit_or,
}
use nedoos.Net.Bytes.{ntohs, htons, ntohl, htonl}

pub ntohs_bytes : (n : ℕ) → n < 2 ^ 16 → ntohs n ≡ n % 256 * 256 + n / 256
unfolding ntohs
ntohs_bytes n h =
    ground (arith, bit_or_fields 8 0 n (n / 2 ^ 8) 0, zero-bit_or n, bit_or-zero (n / 2 ^ 8))

-- The low bits of one operand are free in the other.
bit_or_above : (k q r : ℕ) → r < 2 ^ k → bit_or r (q * 2 ^ k) ≡ q * 2 ^ k + r
bit_or_above k q r h = ground (arith, bit_or_fields k 0 q r 0, zero-bit_or q, bit_or-zero r)

mask_byte : (k n : ℕ) → bit_and n (255 * 2 ^ k) ≡ n / 2 ^ k % 256 * 2 ^ k
mask_byte k n = ground (
  arith,
  bit_and_fields k (n / 2 ^ k) 255 (n % 2 ^ k) 0,
  bit_and_mask 8 (n / 2 ^ k),
  bit_and-zero (n % 2 ^ k),
)

second : (n : ℕ) → bit_and (n / 2 ^ 8) 0xff00 ≡ n / 65536 % 256 * 256
second n = omega (arith, mask_byte 8 (n / 2 ^ 8))

third : (n : ℕ) → bit_and (u32 (n * 2 ^ 8)) 0xff0000 ≡ n / 256 % 256 * 65536
third n = omega (arith, mask_byte 16 (u32 (n * 2 ^ 8)))

fourth : (n : ℕ) → u32 (n * 2 ^ 24) ≡ n % 256 * 2 ^ 24
fourth n = omega arith

pub ntohl_bytes :
    (n : ℕ)
    → n < 2 ^ 32
    → ntohl n ≡ n % 256 * 2 ^ 24 + (n / 256 % 256 * 65536 + (n / 65536 % 256 * 256 + n / 2 ^ 24))
unfolding ntohl
ntohl_bytes n h =
    rw
      (
        second n,
        third n,
        fourth n,
        bit_or_above 8 (n / 65536 % 256) (n / 2 ^ 24) (omega arith),
        bit_or_above 16 (n / 256 % 256) (n / 65536 % 256 * 256 + n / 2 ^ 24) (omega arith),
        bit_or_above 24 (n % 256) (n / 256 % 256 * 65536 + (n / 65536 % 256 * 256 + n / 2 ^ 24))
            (omega arith),
      )
      refl

-- Turning the bytes of a number of 32 bits round twice gives the number back.
pub ntohl-htonl : (n : ℕ) → n < 2 ^ 32 → ntohl (htonl n) ≡ n
unfolding htonl
ntohl-htonl n h = omega (arith, ntohl_bytes n h, ntohl_bytes (ntohl n))

-- Turning the bytes of a number of 16 bits round twice gives the number back.
pub ntohs-htons : (n : ℕ) → n < 2 ^ 16 → ntohs (htons n) ≡ n
unfolding htons
ntohs-htons n h =
    let b = ntohs_bytes n h in
    ap ntohs b ∙ (ntohs_bytes (n % 256 * 256 + n / 256) (omega (arith, h)) ∙ omega (arith, h))
