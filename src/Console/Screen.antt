-- ===== src/Console/Screen.antt =====
-- Printing stays on the screen: the cursor's invariant, and the memory that is written.
use nedoos.Prelude.{
  ℕ, ◌+◌, ◌≤◌, ◌<◌, ◌≡◌, refl, ◌∙◌, ◌&&◌, List, [], ◌∷◌, Array, update, for_up_inv, ltb, leb, ◌==◌,
  if◌then◌else◌, arith, Bool-cases, inl, inr,
}
use nedoos.Console.{
  Console, vga_width, vga_height, blank, blank_cells, scroll_up, newline, position, advance,
  putchar, print,
}

-- The cursor stands on the screen.
pub record IsOnScreen (s : Console) : Type 0 where
  pub row : s.row < vga_height
  pub col : s.col < vga_width

-- What the cells hold once the screen has moved up by one row, with a blank row below.
abbrev pub scrolled : Console → ℕ → ℕ
scrolled s i =
    if ltb i 1920
    then s.video (i + vga_width)
    else if ltb i 2000
    then blank s.current_color
    else s.video i

scroll_up-get :
    (v : Array) (i : ℕ) → scroll_up v i ≡ (if ltb i 1920 then v (i + vga_width) else v i)
unfolding scroll_up
scroll_up-get v i =
    for_up_inv (λ n (w : Array). (j : ℕ) → w j ≡ (if ltb j n then v (j + vga_width) else v j))
      (λ n (w : Array). update w n (w (n + vga_width))) 1920 0 1920 v
      (λ n w p ih j. ground (arith, ih j, ih (n + vga_width))) refl (λ j. ground arith) i

pub blank_cells-get :
    (color from n : ℕ) (v : Array) (i : ℕ)
    → blank_cells color from n v i ≡ (if leb from i && ltb i (from + n) then blank color else v i)
unfolding blank_cells
blank_cells-get color from n v i =
    (for_up_inv
      (λ k (w : Array). (from ≤ k) × (w i ≡ (if leb from i && ltb i k then blank color else v i)))
      (λ k (w : Array). update w k (blank color)) n from (from + n) v
      (λ k w p ih. (omega (arith, ih.0), ground (arith, ih.0, ih.1))) refl
      (omega arith, ground arith)).1

-- A new line moves the cursor down to the first column. In the last row it moves the rows up by one
-- instead, and blanks the last one in the current colour; memory past the screen is kept.
pub newline_cases :
    (s : Console)
    → s.row < vga_height
    → ((newline s).col ≡ 0)
      × ((newline s).row ≡ (if leb 24 s.row then 24 else s.row + 1))
      × ((i : ℕ) → (newline s).video i ≡ (if leb 24 s.row then scrolled s i else s.video i))
unfolding newline
newline_cases s h = elim (Bool-cases (leb vga_height (s.row + 1))) [
  | inl last ↦ rw last (
    refl,
    ground arith,
    λ i. ground (
      arith,
      blank_cells-get s.current_color 1920 80 (scroll_up s.video) i,
      scroll_up-get s.video i,
    ),
  )
  | inr more ↦ rw more (refl, ground arith, λ i. ground arith)
]

pub newline-IsOnScreen : (s : Console) → IsOnScreen s → IsOnScreen (newline s)
newline-IsOnScreen s v =
    let h = newline_cases s v.row in
    record { row = ground (arith, h.1, v.row); col = omega (arith, h.0) }

newline-past : (s : Console) (i : ℕ) → IsOnScreen s → 2000 ≤ i → (newline s).video i ≡ s.video i
newline-past s i v h = ground (arith, (newline_cases s v.row).2 i)

-- What `putchar` and `print` keep: the cursor on the screen, and the memory past it.
pub record Stays (s t : Console) : Type 0 where
  pub on : IsOnScreen t
  pub past : (i : ℕ) → 2000 ≤ i → t.video i ≡ s.video i
  pub color : t.current_color ≡ s.current_color

color-newline : (s : Console) → (newline s).current_color ≡ s.current_color
unfolding newline
color-newline s = ground arith

newline-Stays : (s : Console) → IsOnScreen s → Stays s (newline s)
newline-Stays s v = record {
  on = newline-IsOnScreen s v;
  past = λ i h. newline-past s i v h;
  color = color-newline s;
}

Stays-trans : (s t u : Console) → Stays s t → Stays t u → Stays s u
Stays-trans s t u h k = record {
  on = k.on;
  past = λ i p. k.past i p ∙ h.past i p;
  color = k.color ∙ h.color;
}

-- The row and the column of `advance` before the new line.
advance-Stays :
    (s : Console) (cell : ℕ)
    → IsOnScreen s
    → Stays s (advance (record s { video = update s.video (position s) cell }))
unfolding advance
advance-Stays s cell v =
    let t : Console = record s { video = update s.video (position s) cell; col = s.col + 1 } in
    let row : s.row < 25 = v.row in
    let col : s.col < 80 = v.col in
    let past : (i : ℕ) → 2000 ≤ i → t.video i ≡ s.video i = λ i h. ground (arith, row, col) in
    elim (Bool-cases (leb vga_width (s.col + 1))) [
      | inl full ↦ rw full (record {
        on = record {
          row = ground (arith, row, (newline_cases t row).1);
          col = omega (arith, (newline_cases t row).0);
        };
        past = λ i h. ground (arith, (newline_cases t row).2 i) ∙ past i h;
        color = color-newline t;
      })
      | inr more ↦
          rw more
            (record { on = record { row = row; col = ground arith }; past = past; color = refl })
    ]

pub putchar-Stays : (s : Console) (c : ℕ) → IsOnScreen s → Stays s (putchar c s)
unfolding putchar
putchar-Stays s c v = elim (Bool-cases (c == 10)) [
  | inl line ↦ rw line (newline-Stays s v)
  | inr other ↦ elim (Bool-cases ((c == 8) && ltb 0 s.col)) [
    | inl back ↦
        rw (other, back)
          (record {
            on = record { row = v.row; col = omega (arith, v.col) };
            past = λ i h. ground (arith, v.row, v.col);
            color = refl;
          })
    | inr char ↦ rw (other, char) (advance-Stays s _ v)
  ]
]

-- Printing any string, control characters and scrolling included, leaves the cursor on the screen,
-- writes no word of memory past the screen's 2000 cells, and keeps the current colour.
pub print-Stays : (cs : List ℕ) (s : Console) → IsOnScreen s → Stays s (print cs s)
unfolding print
print-Stays [] s v = record { on = v; past = λ i h. refl; color = refl }
print-Stays (c ∷ cs) s v =
    let first = putchar-Stays s c v in
    Stays-trans s (putchar c s) (print cs (putchar c s)) first
      (print-Stays cs (putchar c s) first.on)
