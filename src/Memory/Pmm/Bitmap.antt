-- ===== src/Memory/Pmm/Bitmap.antt =====
-- The bitmap seen bit by bit: a set and a clear change the bit that they name, and no other.
use nedoos.Prelude.{
  ℕ, ◌-◌, ◌/◌, ◌%◌, ◌^◌, ◌<◌, ◌≡◌, refl, bit_and, bit_or, Bool, true, false, not, Array, IsBytes,
  update-IsBytes, u8, ◌==◌, if◌then◌else◌, arith,
}
use nedoos.Prelude.Bits.{byte_table, byte_table_sound}
use nedoos.Memory.Pmm.{bitmap_set, bitmap_clear, bitmap_test}

abbrev pub bit_of : ℕ → ℕ → Bool
bit_of x k = not (bit_and x (2 ^ k) == 0)

abbrev same : Bool → Bool → Bool
same true b = b
same false b = not b

same→eq : (a b : Bool) → same a b ≡ true → a ≡ b
same→eq a b h = ground arith

-- Setting and clearing bit `k` of the byte `x`, seen at bit `j`.
abbrev set_agrees : ℕ → ℕ → ℕ → Bool
set_agrees x k j = same (bit_of (u8 (bit_or x (2 ^ k))) j) (if j == k then true else bit_of x j)

abbrev clear_agrees : ℕ → ℕ → ℕ → Bool
clear_agrees x k j =
    same (bit_of (u8 (bit_and x (2 ^ 32 - 1 - 2 ^ k))) j) (if j == k then false else bit_of x j)

set_table : byte_table set_agrees ≡ true
unfolding byte_table
set_table = refl

clear_table : byte_table clear_agrees ≡ true
unfolding byte_table
clear_table = refl

pub bit_of_or :
    (x k j : ℕ)
    → x < 256
    → k < 8
    → j < 8
    → bit_of (u8 (bit_or x (2 ^ k))) j ≡ (if j == k then true else bit_of x j)
bit_of_or x k j hx hk hj = same→eq _ _ (byte_table_sound set_agrees set_table x k j hx hk hj)

pub bit_of_and :
    (x k j : ℕ)
    → x < 256
    → k < 8
    → j < 8
    → bit_of (u8 (bit_and x (2 ^ 32 - 1 - 2 ^ k))) j ≡ (if j == k then false else bit_of x j)
bit_of_and x k j hx hk hj = same→eq _ _ (byte_table_sound clear_agrees clear_table x k j hx hk hj)

pub bitmap_test-set :
    (m : Array) (b c : ℕ)
    → IsBytes m
    → bitmap_test (bitmap_set m b) c ≡ (if c == b then true else bitmap_test m c)
unfolding bitmap_test bitmap_set
bitmap_test-set m b c h = ground (arith, bit_of_or (m (b / 8)) (b % 8) (c % 8), h (b / 8))

pub bitmap_test-clear :
    (m : Array) (b c : ℕ)
    → IsBytes m
    → bitmap_test (bitmap_clear m b) c ≡ (if c == b then false else bitmap_test m c)
unfolding bitmap_test bitmap_clear
bitmap_test-clear m b c h = ground (arith, bit_of_and (m (b / 8)) (b % 8) (c % 8), h (b / 8))

pub bitmap_set-IsBytes : (m : Array) (b : ℕ) → IsBytes m → IsBytes (bitmap_set m b)
unfolding bitmap_set
bitmap_set-IsBytes m b h = update-IsBytes m (b / 8) _ h (omega arith)

pub bitmap_clear-IsBytes : (m : Array) (b : ℕ) → IsBytes m → IsBytes (bitmap_clear m b)
unfolding bitmap_clear
bitmap_clear-IsBytes m b h = update-IsBytes m (b / 8) _ h (omega arith)
