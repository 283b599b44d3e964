-- ===== src/Arch/Tty/Overflow.antt =====
-- The rows below the last one: the terminal neither scrolls nor stops.
use nedoos.Prelude.{
  ℕ, zero, suc, ◌+◌, ◌*◌, ◌≤◌, ◌≡◌, ◌≢◌, refl, [], ◌∷◌, ◌++◌, replicate, get_or, ◌-◌, arith, ap,
  ◌∙◌,
}
use nedoos.Arch.Tty.{Terminal, width, height, vga_entry, terminal_putchar, terminal_write}
use nedoos.Arch.Tty.Stream.{
  cursor, cursor-row, Follows, terminal_write-append, terminal_write-Follows,
}

newlines : (n : ℕ) (t : Terminal) → (terminal_write (replicate n 10) t).row ≡ t.row + n
unfolding terminal_write terminal_putchar
newlines zero t = omega arith
newlines (suc n) t = omega (arith, newlines n (record t { column = 0; row = t.row + 1 }))

newlines-column : (n : ℕ) (t : Terminal) → (terminal_write (replicate (suc n) 10) t).column ≡ 0
unfolding terminal_write terminal_putchar
newlines-column zero t = refl
newlines-column (suc n) t = newlines-column n (record t { column = 0; row = t.row + 1 })

-- Enough newlines take the cursor below the screen: the next character is stored behind the
-- 80 * 25 cells of the video memory.
pub terminal_write-off_screen :
    (n c : ℕ) (t : Terminal)
    → height ≤ t.row + suc n
    → c ≢ 10
    → c ≢ 27
    → (j : ℕ) × (width * height ≤ j)
      × ((terminal_write (replicate (suc n) 10 ++ c ∷ []) t).buffer j
          ≡ vga_entry c (terminal_write (replicate (suc n) 10) t).color)
terminal_write-off_screen n c t h p q =
    let t1 : Terminal = terminal_write (replicate (suc n) 10) t in
    let f = terminal_write-Follows (c ∷ []) t1 (omega (arith, newlines-column n t)) (p, q, tt) in
    (
      cursor t1,
      below t1 (omega (arith, newlines (suc n) t)),
      rw (terminal_write-append (replicate (suc n) 10) (c ∷ []) t) (stored t1 _ f),
    )
  where
    below : (t1 : Terminal) → height ≤ t1.row → width * height ≤ cursor t1
    below t1 h = omega (arith, cursor-row t1)

    stored :
        (t1 t2 : Terminal) → Follows (c ∷ []) t1 t2 → t2.buffer (cursor t1) ≡ vga_entry c t1.color
    stored t1 t2 f = f.cells (cursor t1) ∙ ground (arith, same (cursor t1))
      where
        same : (k : ℕ) → get_or (c ∷ []) (k - k) 0 ≡ c
        same k = ap (λ (i : ℕ). get_or (c ∷ []) i 0) zero_at
          where
            zero_at : k - k ≡ 0
            zero_at = omega arith
