-- ===== src/Console/Terminals/Fresh.antt =====
-- The terminals after `vt_init`.
use nedoos.Prelude.{ℕ, ◌<◌, ◌≡◌, refl, Array, update, for_up_inv, ltb, lt→ltb, if◌then◌else◌, arith}
use nedoos.Console.{blank}
use nedoos.Console.Terminals.{Terminal, Desk, max_terminals, fill_cells, vt_init}

fill_cells-get : (to : Array) (i : ℕ) → fill_cells to i ≡ (if ltb i 2000 then blank 0x07 else to i)
unfolding fill_cells
fill_cells-get to i =
    for_up_inv (λ n (w : Array). w i ≡ (if ltb i n then blank 0x07 else to i))
      (λ n (w : Array). update w n (blank 0x07)) 2000 0 2000 to (λ n w p ih. ground (arith, ih))
      refl (ground arith)

-- An empty terminal, grey on black.
pub record IsFresh (t : Terminal) : Type 0 where
  pub cells : (i : ℕ) → i < 2000 → t.buffer i ≡ blank 0x07
  pub row : t.row ≡ 0
  pub col : t.col ≡ 0
  pub pos : t.pos ≡ 0

pub vt_init-IsFresh : (d : Desk) (t : ℕ) → t < max_terminals → IsFresh ((vt_init d).terminals t)
unfolding vt_init
vt_init-IsFresh d t h = rw (lt→ltb t 4 h) (record {
  cells = λ i b. ground (arith, fill_cells-get (d.terminals t).buffer i, b);
  row = refl;
  col = refl;
  pos = refl;
})

pub console-vt_init : (d : Desk) → (vt_init d).console ≡ d.console
unfolding vt_init
console-vt_init d = refl
