-- ===== src/Arch/Tty.antt =====
-- kernel/arch/i386/tty.c and vga.h: the terminal of the boot messages, which does not scroll.
pub mod Stream
pub mod Overflow
mod Tests
use nedoos.Prelude.{
  ℕ, ◌+◌, ◌*◌, ◌^◌, bit_or, Bool, true, false, List, [], ◌∷◌, Array, update, for_up, ◌==◌,
  if◌then◌else◌,
}

-- fg | bg << 4
pub vga_entry_color : ℕ → ℕ → ℕ
vga_entry_color fg bg = bit_or fg (bg * 2 ^ 4)

-- uc | color << 8
pub vga_entry : ℕ → ℕ → ℕ
vga_entry uc color = bit_or uc (color * 2 ^ 8)

abbrev pub width : ℕ
width = 80

abbrev pub height : ℕ
height = 25

-- The buffer is the memory from 0xB8000 on, in words.
pub record Terminal : Type 0 where
  pub row : ℕ
  pub column : ℕ
  pub color : ℕ
  pub buffer : Array

-- The two nested loops, over the rows and over the columns.
pub blank_rows : ℕ → Array → Array
blank_rows color b =
    for_up height 0
      (λ y (r : Array).
        for_up width 0 (λ x (c : Array). update c (y * width + x) (vga_entry 32 color)) r)
      b

pub terminal_initialize : Terminal → Terminal
unfolding vga_entry_color blank_rows
terminal_initialize t =
    let color = vga_entry_color 7 0 in
    record { row = 0; column = 0; color = color; buffer = blank_rows color t.buffer }

pub terminal_setcolor : ℕ → Terminal → Terminal
terminal_setcolor color t = record t { color = color }

pub terminal_putentryat : ℕ → ℕ → ℕ → ℕ → Terminal → Terminal
unfolding vga_entry
terminal_putentryat c color x y t = record t {
  buffer = update t.buffer (y * width + x) (vga_entry c color);
}

-- if (++terminal_column == VGA_WIDTH) ...
pub next_column : Terminal → Terminal
next_column t =
    if t.column + 1 == width
    then record t { column = 0; row = t.row + 1 }
    else record t { column = t.column + 1 }

pub terminal_putchar : ℕ → Terminal → Terminal
unfolding terminal_putentryat next_column
terminal_putchar c t =
    if c == 27
    then t
    else if c == 10
    then record t { column = 0; row = t.row + 1 }
    else next_column (terminal_putentryat c t.color t.column t.row t)

-- for (i = 0; i < size; i++) terminal_putchar(data[i])
pub terminal_write : List ℕ → Terminal → Terminal
unfolding terminal_putchar
terminal_write [] t = t
terminal_write (c ∷ text) t = terminal_write text (terminal_putchar c t)
