-- ===== src/Console/Terminals/Restore.antt =====
-- Switching between the terminals keeps what each of them shows.
use nedoos.Prelude.{
  ℕ, ◌<◌, ◌≡◌, ◌≢◌, refl, sym, ◌∙◌, ap, Array, update, for_up_inv, ltb, if◌then◌else◌, arith, ne→==,
  eq→==,
}
use nedoos.Console.{Console}
use nedoos.Console.Terminals.{
  Terminal, Desk, max_terminals, copy_cells, saved, vt_save_current, vt_restore, vt_switch,
}

copy_cells-get :
    (to from : Array) (i : ℕ) → copy_cells to from i ≡ (if ltb i 2000 then from i else to i)
unfolding copy_cells
copy_cells-get to from i =
    for_up_inv (λ n (w : Array). w i ≡ (if ltb i n then from i else to i))
      (λ n (w : Array). update w n (from n)) 2000 0 2000 to (λ n w p ih. ground (arith, ih)) refl
      (ground arith)

-- The same cells on the screen, the same cursor and the same colour.
pub record ShowsSame (s t : Console) : Type 0 where
  pub cells : (i : ℕ) → i < 2000 → t.video i ≡ s.video i
  pub row : t.row ≡ s.row
  pub col : t.col ≡ s.col
  pub color : t.current_color ≡ s.current_color

-- The desk after a switch that is not refused.
moved : ℕ → Desk → Desk
moved term d = vt_restore term (record (vt_save_current d) { current_terminal = term })

switch-moved :
    (d : Desk) (term : ℕ)
    → term < max_terminals
    → term ≢ d.current_terminal
    → vt_switch term d ≡ moved term d
unfolding vt_switch moved
switch-moved d term h n = rw (ne→== term d.current_terminal n) (ground arith)

-- What a switch puts on the screen, and what it leaves in the table.
pub record Switches (d : Desk) (term : ℕ) (r : Desk) : Type 0 where
  pub current : r.current_terminal ≡ term
  pub cells :
      (i : ℕ)
      → r.console.video i ≡ (if ltb i 2000 then (d.terminals term).buffer i else d.console.video i)
  pub row : r.console.row ≡ (d.terminals term).row
  pub col : r.console.col ≡ (d.terminals term).col
  pub color : r.console.current_color ≡ (d.terminals term).color
  pub left : r.terminals d.current_terminal ≡ saved (d.terminals d.current_terminal) d.console
  pub others : (t : ℕ) → t ≢ d.current_terminal → r.terminals t ≡ d.terminals t

moved-Switches : (d : Desk) (term : ℕ) → term ≢ d.current_terminal → Switches d term (moved term d)
unfolding moved vt_restore vt_save_current
moved-Switches d term n =
    let kept : update d.terminals d.current_terminal
          (saved (d.terminals d.current_terminal) d.console) term
        ≡ d.terminals term =
      rw (ne→== term d.current_terminal n) refl in
    record {
      current = refl;
      cells = λ i.
          copy_cells-get _ _ i
          ∙ ap (λ (t : Terminal). if ltb i 2000 then t.buffer i else d.console.video i) kept;
      row = ap (λ (t : Terminal). t.row) kept;
      col = ap (λ (t : Terminal). t.col) kept;
      color = ap (λ (t : Terminal). t.color) kept;
      left = rw (eq→== d.current_terminal d.current_terminal refl) refl;
      others = λ t m. rw (ne→== t d.current_terminal m) refl;
    }

-- A switch to another terminal in range shows what was saved of it and saves the screen for the one
-- that is left; the others and the memory past the screen are kept.
pub vt_switch-Switches :
    (d : Desk) (term : ℕ)
    → term < max_terminals
    → term ≢ d.current_terminal
    → Switches d term (vt_switch term d)
vt_switch-Switches d term h n = rw (switch-moved d term h n) (moved-Switches d term n)

returned :
    (d e r : Desk) (term : ℕ)
    → Switches d term e
    → Switches e d.current_terminal r
    → ShowsSame d.console r.console
returned d e r term p q =
    let back : e.terminals d.current_terminal ≡ saved (d.terminals d.current_terminal) d.console =
      p.left in
    record {
      cells = λ i h. ground (
        arith,
        q.cells i,
        ap (λ (t : Terminal). t.buffer i) back,
        copy_cells-get (d.terminals d.current_terminal).buffer d.console.video i,
      );
      row = q.row ∙ ap (λ (t : Terminal). t.row) back;
      col = q.col ∙ ap (λ (t : Terminal). t.col) back;
      color = q.color ∙ ap (λ (t : Terminal). t.color) back;
    }

-- Switching to another terminal and back shows the same screen, cursor and colour again.
pub vt_switch_back :
    (d : Desk) (term : ℕ)
    → d.current_terminal < max_terminals
    → term < max_terminals
    → term ≢ d.current_terminal
    → ShowsSame d.console (vt_switch d.current_terminal (vt_switch term d)).console
vt_switch_back d term hc ht n =
    let there = vt_switch-Switches d term ht n in
    let e : Desk = vt_switch term d in
    returned d e _ term there
      (vt_switch-Switches e d.current_terminal hc (λ q. n (sym (q ∙ there.current))))
