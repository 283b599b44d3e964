-- ===== src/Memory/Pmm.antt =====
-- kernel/mm/pmm.c: a bitmap of the page frames, a bit to a frame, and a next-fit allocator.
-- The bitmap is a function from indices to bytes. Addresses are below 2 ^ 32. What `printf`
-- writes is not part of the state.
pub mod Bitmap
pub mod Scan
pub mod Alloc
pub mod Init
pub mod Ledger
mod Tests
use nedoos.Prelude.{
  ℕ, zero, suc, ◌+◌, ◌-◌, ◌*◌, ◌/◌, ◌%◌, ◌^◌, min, bit_and, bit_or, Bool, true, false, not, Option,
  none, some, List, [], ◌∷◌, Array, update, for_up, u8, u32, ltb, if◌then◌else◌, ◌==◌,
}
use nedoos.Libc.{memset}

abbrev pub page_size : ℕ
page_size = 4096

abbrev pub page_count : ℕ
page_count = 1048576

abbrev pub bitmap_size : ℕ
bitmap_size = 131072

pub record Pmm : Type 0 where
  pub memory_bitmap : Array
  pub last_allocated : ℕ

pub bitmap_set : Array → ℕ → Array
bitmap_set m bit = update m (bit / 8) (u8 (bit_or (m (bit / 8)) (2 ^ (bit % 8))))

-- `~(1 << k)` is an `int`: all its 32 bits but one are set.
pub bitmap_clear : Array → ℕ → Array
bitmap_clear m bit = update m (bit / 8) (u8 (bit_and (m (bit / 8)) (2 ^ 32 - 1 - 2 ^ (bit % 8))))

unfoldable pub bitmap_test : Array → ℕ → Bool
bitmap_test m bit = not (bit_and (m (bit / 8)) (2 ^ (bit % 8)) == 0)

-- `for (i = 256; i < total_pages && i < PAGE_COUNT; i++)` runs `min total PAGE_COUNT - 256` times.
pub pmm_init : Pmm → ℕ → Pmm
unfolding bitmap_set bitmap_clear
pmm_init s memory_size =
    let used = memset s.memory_bitmap 0 0xff bitmap_size in
    let low = for_up 256 0 (λ i (m : Array). bitmap_set m i) used in
    let total_pages = memory_size / page_size in
    record s {
      memory_bitmap =
          for_up (min total_pages page_count - 256) 256 (λ i (m : Array). bitmap_clear m i) low;
    }

-- The first clear bit among the `rounds` bits from `i` on.
pub scan : ℕ → ℕ → Array → Option ℕ
scan zero i m = none
scan (suc rounds) i m = elim (bitmap_test m i) [ true ↦ scan rounds (i + 1) m | false ↦ some i ]

pub grant : Pmm → ℕ → Pmm × ℕ
unfolding bitmap_set
grant s i = (
  record { memory_bitmap = bitmap_set s.memory_bitmap i; last_allocated = i + 1 },
  u32 (i * page_size),
)

abbrev pub null : ℕ
null = 0

-- What follows the second pass: out of memory, when that finds nothing either.
second_pass : Pmm → Option ℕ → Pmm × ℕ
second_pass s (some i) = grant s i
second_pass s none = (s, null)

first_pass : Pmm → Option ℕ → Pmm × ℕ
unfolding second_pass
first_pass s (some i) = grant s i
first_pass s none = second_pass s (scan s.last_allocated 0 s.memory_bitmap)

-- Two passes: from `last_allocated` up, then the frames below it.
unfoldable pub pmm_alloc_page : Pmm → Pmm × ℕ
unfolding scan grant first_pass
pmm_alloc_page s =
    first_pass s (scan (page_count - s.last_allocated) s.last_allocated s.memory_bitmap)

pub pmm_free_page : Pmm → ℕ → Pmm
unfolding bitmap_clear
pmm_free_page s addr =
    let page = addr / page_size in
    if ltb page page_count
    then record s { memory_bitmap = bitmap_clear s.memory_bitmap page }
    else s
