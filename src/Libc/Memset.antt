-- ===== src/Libc/Memset.antt =====
-- libc/string/memset.c: what `memset` leaves in memory.
use nedoos.Prelude.{ℕ, ◌+◌, ◌≡◌, ◌&&◌, Array, for_up_inv, u8, ltb, leb, if◌then◌else◌, arith}
use nedoos.Libc.{memset}

-- `memset` fills the `size` bytes from `buf` on with the value's low byte, and no other.
pub memset-get :
    (m : Array) (buf value size j : ℕ)
    → memset m buf value size j ≡ (if leb buf j && ltb j (buf + size) then u8 value else m j)
unfolding memset
memset-get m buf value size j =
    for_up_inv (λ i (t : Array). t j ≡ (if leb buf j && ltb j (buf + i) then u8 value else m j)) _
      size 0 size m (λ i t p h. ground arith) (omega arith) (ground arith)
