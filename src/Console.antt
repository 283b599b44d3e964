-- ===== src/Console.antt =====
-- kernel/kernel.c: the text screen of 80 columns and 25 rows, and what is printed on it.
pub mod Screen
pub mod Decimal
pub mod Held
pub mod Terminals
mod Tests
use nedoos.Prelude.{
  ℕ, zero, suc, ◌+◌, ◌-◌, ◌*◌, ◌/◌, ◌%◌, ◌^◌, bit_or, Bool, true, false, ◌&&◌, ◌||◌, List, [], ◌∷◌,
  Option, none, some, ◌>>=◌, Array, update, for_up, get_or, ltb, leb, ◌==◌, if◌then◌else◌, u8,
}

abbrev pub vga_width : ℕ
vga_width = 80

abbrev pub vga_height : ℕ
vga_height = 25

-- `video` is the memory from 0xB8000 on, in words.
pub record Console : Type 0 where
  pub video : Array
  pub row : ℕ
  pub col : ℕ
  pub current_color : ℕ

pub set_color : ℕ → Console → Console
set_color fg s = record s { current_color = fg }

-- A space of the given colour.
abbrev pub blank : ℕ → ℕ
blank color = bit_or 32 (color * 2 ^ 8)

pub scroll_up : Array → Array
unfolding for_up
scroll_up v = for_up 1920 0 (λ i (w : Array). update w i (w (i + vga_width))) v

-- for (i = from; i < from + n; i++) video[i] = ' ' | (color << 8)
pub blank_cells : ℕ → ℕ → ℕ → Array → Array
unfolding for_up
blank_cells color from n v = for_up n from (λ i (w : Array). update w i (blank color)) v

pub newline : Console → Console
newline s =
    if leb vga_height (s.row + 1)
    then record s {
      video = blank_cells s.current_color 1920 80 (scroll_up s.video);
      row = vga_height - 1;
      col = 0;
    }
    else record s { row = s.row + 1; col = 0 }

abbrev pub position : Console → ℕ
position s = s.row * vga_width + s.col

-- `(uint16_t)c` of the signed type `char`
abbrev pub char_word : ℕ → ℕ
char_word c = if ltb c 128 then c else 0xff00 + c

-- The end of `putchar`: the cursor moves on.
pub advance : Console → Console
advance s = let s' = record s { col = s.col + 1 } in if leb vga_width s'.col then newline s' else s'

pub putchar : ℕ → Console → Console
putchar c s =
    if c == 10
    then newline s
    else if (c == 8) && ltb 0 s.col
    then record s {
      video = update s.video (s.row * vga_width + (s.col - 1)) (blank s.current_color);
      col = s.col - 1;
    }
    else advance (record s {
      video = update s.video (position s) (bit_or (char_word c) (s.current_color * 2 ^ 8));
    })

-- A string is its characters without the final zero.
unfoldable pub print : List ℕ → Console → Console
print [] s = s
print (c ∷ cs) s = print cs (putchar c s)

-- The digits in `buf`, the last one first; `room` counts the places of `buf` that are left, and
-- writing past them is a fault.
unfoldable pub digits : ℕ → ℕ → List ℕ → Option (List ℕ)
digits room zero buf = some buf
digits zero (suc n) buf = none
digits (suc room) (suc n) buf = digits room (suc n / 10) ((48 + suc n % 10) ∷ buf)

unfoldable pub print_dec : ℕ → Console → Option Console
unfolding digits
print_dec num s =
    if num == 0 then some (putchar 48 s) else (digits 12 num [] >>= λ buf. some (print buf s))

abbrev pub hex : List ℕ
hex = 48 ∷ 49 ∷ 50 ∷ 51 ∷ 52 ∷ 53 ∷ 54 ∷ 55 ∷ 56 ∷ 57 ∷ 65 ∷ 66 ∷ 67 ∷ 68 ∷ 69 ∷ 70 ∷ []

pub print_hex : ℕ → Console → Console
print_hex val s = putchar (get_or hex (val % 16) 0) (putchar (get_or hex (val / 16) 0) s)

-- What `kernel_main` and the command `clear` do to the screen.
pub clear_screen : Console → Console
clear_screen s = record s { video = blank_cells s.current_color 0 2000 s.video; row = 0; col = 0 }
