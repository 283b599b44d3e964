-- ===== src/Memory/Pmm/Init.antt =====
-- `pmm_init`: which frames are free when it returns.
use nedoos.Prelude.{
  ℕ, ◌+◌, ◌-◌, ◌/◌, ◌%◌, ◌^◌, ◌≤◌, ◌<◌, ◌≡◌, min, bit_and, refl, Bool, true, not, ◌&&◌, Array,
  IsBytes, for_up, for_up_inv, ltb, leb, ◌==◌, arith,
}
use nedoos.Prelude.Bits.{all_below, all_below_sound}
use nedoos.Libc.{memset}
use nedoos.Libc.Memset.{memset-get}
use nedoos.Memory.Pmm.{
  Pmm, page_size, page_count, bitmap_size, bitmap_set, bitmap_clear, bitmap_test, pmm_init,
}
use nedoos.Memory.Pmm.Bitmap.{
  bitmap_test-set, bitmap_test-clear, bitmap_set-IsBytes, bitmap_clear-IsBytes,
}
use nedoos.Memory.Pmm.Alloc.{used, IsValid}

-- The bitmap holds bytes, and shows the frames as `p` says.
record Shows (p : ℕ → Bool) (m : Array) : Type 0 where
  bytes : IsBytes m
  bits : (c : ℕ) → c < page_count → bitmap_test m c ≡ p c

full_byte : all_below 8 (λ k. not (bit_and 0xff (2 ^ k) == 0)) ≡ true
unfolding all_below
full_byte = refl

memset-full : (m : Array) → IsBytes m → Shows (λ c. true) (memset m 0 0xff bitmap_size)
unfolding bitmap_test
memset-full m h = record {
  bytes = λ i. ground (arith, memset-get m 0 0xff bitmap_size i, h i);
  bits = λ c p. ground (
    arith,
    memset-get m 0 0xff bitmap_size (c / 8),
    all_below_sound 8 (λ k. not (bit_and 0xff (2 ^ k) == 0)) (c % 8) full_byte,
  );
}

set-full : (i : ℕ) (m : Array) → Shows (λ c. true) m → Shows (λ c. true) (bitmap_set m i)
set-full i m s = record {
  bytes = bitmap_set-IsBytes m i s.bytes;
  bits = λ c p. ground (arith, bitmap_test-set m i c s.bytes, s.bits c);
}

-- Frames in use once those from 256 up to `stop` have been freed.
abbrev outside : ℕ → ℕ → Bool
outside stop c = not (leb 256 c && ltb c stop)

clear-outside :
    (i : ℕ) (m : Array) → 256 ≤ i → Shows (outside i) m → Shows (outside (i + 1)) (bitmap_clear m i)
clear-outside i m h s = record {
  bytes = bitmap_clear-IsBytes m i s.bytes;
  bits = λ c p. ground (arith, bitmap_test-clear m i c s.bytes, s.bits c);
}

low_frames :
    (m : Array)
    → Shows (λ c. true) m
    → Shows (λ c. true) (for_up 256 0 (λ i (t : Array). bitmap_set t i) m)
low_frames m s =
    for_up_inv (λ i t. Shows (λ c. true) t) _ 256 0 256 m (λ i t p h. set-full i t h) (omega arith)
      s

free_frames :
    (m : Array) (n : ℕ)
    → Shows (λ c. true) m
    → Shows (outside (256 + n)) (for_up n 256 (λ i (t : Array). bitmap_clear t i) m)
free_frames m n s =
    (for_up_inv (λ i t. (256 ≤ i) × Shows (outside i) t) (λ i (t : Array). bitmap_clear t i) n 256
      (256 + n) m (λ i t p h. (omega arith, clear-outside i t h.0 h.1)) refl
      (omega arith, record { bytes = s.bytes; bits = λ c p. ground (arith, s.bits c) })).1

init-Shows :
    (s : Pmm) (memory_size : ℕ)
    → IsBytes s.memory_bitmap
    → Shows
        (outside (256 + (min (memory_size / page_size) page_count - 256)))
        (pmm_init s memory_size).memory_bitmap
unfolding pmm_init
init-Shows s memory_size h =
    free_frames _ (min (memory_size / page_size) page_count - 256)
      (low_frames _ (memset-full s.memory_bitmap h))

-- After `pmm_init` the free frames are those from the first megabyte to the end of the memory.
pub used-init :
    (s : Pmm) (memory_size c : ℕ)
    → IsBytes s.memory_bitmap
    → c < page_count
    → used (pmm_init s memory_size) c ≡ not (leb 256 c && ltb c (memory_size / page_size))
used-init s memory_size c h p = ground (arith, (init-Shows s memory_size h).bits c)

pub init-IsValid : (s : Pmm) (memory_size : ℕ) → IsValid s → IsValid (pmm_init s memory_size)
init-IsValid s memory_size v = record {
  bytes = (init-Shows s memory_size v.bytes).bytes;
  cursor = unfold pmm_init in v.cursor;
}
