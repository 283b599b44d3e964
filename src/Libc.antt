-- ===== src/Libc.antt =====
-- libc/string, over one memory: a function from addresses to bytes.
pub mod Memmove
pub mod Memcmp
pub mod Memset
mod Tests
use nedoos.Prelude.{
  ℕ, zero, suc, ◌+◌, ◌-◌, Bool, true, false, List, [], ◌∷◌, Array, update, for_up, u8, ltb,
  if◌then◌else◌, ◌==◌,
}

-- for (i = 0; i < size; i++) buf[i] = (unsigned char) value
pub memset : Array → ℕ → ℕ → ℕ → Array
unfolding for_up
memset m buf value size = for_up size 0 (λ i (t : Array). update t (buf + i) (u8 value)) m

-- The loop that copies upwards, of `memcpy` and of the first branch of `memmove`.
copy_up : Array → ℕ → ℕ → ℕ → Array
unfolding for_up
copy_up m dst src size = for_up size 0 (λ i (t : Array). update t (dst + i) (t (src + i))) m

pub memcpy : Array → ℕ → ℕ → ℕ → Array
unfolding copy_up
memcpy m dst src size = copy_up m dst src size

-- for (i = size; i != 0; i--) dst[i-1] = src[i-1]
copy_down : Array → ℕ → ℕ → ℕ → Array
copy_down m dst src zero = m
copy_down m dst src (suc i) = copy_down (update m (dst + i) (m (src + i))) dst src i

pub memmove : Array → ℕ → ℕ → ℕ → Array
unfolding copy_up copy_down
memmove m dst src size = if ltb dst src then copy_up m dst src size else copy_down m dst src size

-- The three results -1, 0 and 1 of `memcmp`.
pub data Order : Type 0 where
  less same more : Order

memcmp_from : Array → ℕ → ℕ → ℕ → ℕ → Order
memcmp_from m a b i zero = same
memcmp_from m a b i (suc left) =
    let rest = memcmp_from m a b (i + 1) left in
    if ltb (m (a + i)) (m (b + i)) then less else if ltb (m (b + i)) (m (a + i)) then more else rest

pub memcmp : Array → ℕ → ℕ → ℕ → Order
unfolding memcmp_from
memcmp m a b size = memcmp_from m a b 0 size
