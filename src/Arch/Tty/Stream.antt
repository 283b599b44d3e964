-- ===== src/Arch/Tty/Stream.antt =====
-- What is written follows what was written before, from the cursor on.
use nedoos.Prelude.{
  ℕ, suc, ◌+◌, ◌-◌, ◌*◌, ◌≤◌, ◌<◌, ◌≡◌, ◌≢◌, refl, ap, ◌∙◌, ◌&&◌, List, [], ◌∷◌, ◌++◌, length,
  get_or, ltb, leb, ◌==◌, if◌then◌else◌, arith, Bool-cases, inl, inr, ==→eq, ==→ne, ne→==,
}
use nedoos.Arch.Tty.{
  Terminal, width, vga_entry, terminal_putchar, next_column, terminal_write, terminal_putentryat,
}

pub terminal_write-append :
    (a b : List ℕ) (t : Terminal)
    → terminal_write (a ++ b) t ≡ terminal_write b (terminal_write a t)
unfolding terminal_write
terminal_write-append [] b t = refl
terminal_write-append (c ∷ a) b t = terminal_write-append a b (terminal_putchar c t)

pub terminal_write-nil : (t : Terminal) → terminal_write [] t ≡ t
unfolding terminal_write
terminal_write-nil t = refl

-- Characters with a place of their own on the screen.
abbrev pub IsPlain : List ℕ → Type 0
IsPlain [] = Unit {0}
IsPlain (c ∷ s) = (c ≢ 10) × (c ≢ 27) × IsPlain s

pub cursor : Terminal → ℕ
cursor t = t.row * width + t.column

pub cursor-row : (t : Terminal) → t.row * width ≤ cursor t
unfolding cursor
cursor-row t = omega arith

pub record Follows (text : List ℕ) (t t' : Terminal) : Type 0 where
  pub column : t'.column < width
  pub moves : cursor t' ≡ cursor t + length text
  pub cells :
      (j : ℕ)
      → t'.buffer j ≡ (
          if leb (cursor t) j && ltb j (cursor t + length text)
          then vga_entry (get_or text (j - cursor t) 0) t.color
          else t.buffer j)
  pub color : t'.color ≡ t.color

put-Follows :
    (c : ℕ) (t : Terminal)
    → t.column < width
    → c ≢ 10
    → c ≢ 27
    → Follows (c ∷ []) t (terminal_putchar c t)
unfolding cursor terminal_putchar terminal_putentryat next_column
put-Follows c t h n e = rw (ne→== c 10 n) (
    rw (ne→== c 27 e) (elim (Bool-cases (t.column + 1 == width)) [
      | inl w ↦ rw w (record {
        column = omega arith;
        moves = omega (arith, ==→eq (t.column + 1) width w);
        cells = λ j. ground (arith, one_cell j (t.row * width + t.column));
        color = refl;
      })
      | inr w ↦ rw w (record {
        column = omega (arith, ==→ne (t.column + 1) width w);
        moves = omega arith;
        cells = λ j. ground (arith, one_cell j (t.row * width + t.column));
        color = refl;
      })
    ]))
  where
    one_cell : (j p : ℕ) → j ≡ p → get_or (c ∷ []) (j - p) 0 ≡ c
    one_cell j p e = ap (λ (i : ℕ). get_or (c ∷ []) i 0) zero_at
      where
        zero_at : j - p ≡ 0
        zero_at = omega arith

later_cell :
    (c : ℕ) (s : List ℕ) (j p q : ℕ)
    → q ≡ p + 1
    → q ≤ j
    → get_or (c ∷ s) (j - p) 0 ≡ get_or s (j - q) 0
later_cell c s j p q e h = ap (λ (i : ℕ). get_or (c ∷ s) i 0) next
  where
    next : j - p ≡ suc (j - q)
    next = omega arith

first_cell : (c : ℕ) (s : List ℕ) (j p : ℕ) → j ≡ p → get_or (c ∷ s) (j - p) 0 ≡ c
first_cell c s j p e = ap (λ (i : ℕ). get_or (c ∷ s) i 0) zero_at
  where
    zero_at : j - p ≡ 0
    zero_at = omega arith

Follows-cons :
    (c : ℕ) (s : List ℕ) (t t1 t' : Terminal)
    → Follows (c ∷ []) t t1
    → Follows s t1 t'
    → Follows (c ∷ s) t t'
Follows-cons c s t t1 t' f g = record {
  column = g.column;
  moves = omega (arith, f.moves, g.moves);
  cells = λ j. ground (
    arith,
    f.cells j,
    g.cells j,
    f.moves,
    f.color,
    first_cell c [] j (cursor t),
    first_cell c s j (cursor t),
    later_cell c s j (cursor t) (cursor t1),
  );
  color = g.color ∙ f.color;
}

-- Text without newlines and escapes is laid out cell after cell from the cursor on, in the current
-- colour, over the ends of the rows; no other cell changes, and the cursor stands behind it.
pub terminal_write-Follows :
    (s : List ℕ) (t : Terminal) → t.column < width → IsPlain s → Follows s t (terminal_write s t)
unfolding terminal_write
terminal_write-Follows [] t h p = record {
  column = h;
  moves = omega arith;
  cells = λ j. ground arith;
  color = refl;
}
terminal_write-Follows (c ∷ s) t h p =
    let f = put-Follows c t h p.0 p.1 in
    Follows-cons c s t (terminal_putchar c t) _ f
      (terminal_write-Follows s (terminal_putchar c t) f.column p.2)
