-- ===== src/Console/Terminals.antt =====
-- kernel/kernel.c: four virtual terminals that share the screen.
pub mod Fresh
pub mod Restore
use nedoos.Prelude.{
  ℕ, ◌≤◌, ◌<◌, ◌^◌, Bool, ◌||◌, List, [], Array, update, for_up, ltb, leb, ◌==◌, if◌then◌else◌,
}
use nedoos.Console.{Console, blank}

abbrev pub max_terminals : ℕ
max_terminals = 4

-- `terminal_t`
pub record Terminal : Type 0 where
  pub buffer : Array
  pub row : ℕ
  pub col : ℕ
  pub color : ℕ
  pub cmd : List ℕ
  pub pos : ℕ

-- The screen and the table of terminals.
pub record Desk : Type 0 where
  pub console : Console
  pub terminals : ℕ → Terminal
  pub current_terminal : ℕ

-- for (i = 0; i < VGA_WIDTH * VGA_HEIGHT; i++) to[i] = from[i]
pub copy_cells : Array → Array → Array
unfolding for_up
copy_cells to from = for_up 2000 0 (λ i (w : Array). update w i (from i)) to

pub fill_cells : Array → Array
unfolding for_up
fill_cells to = for_up 2000 0 (λ i (w : Array). update w i (blank 0x07)) to

pub vt_init : Desk → Desk
vt_init d = record d {
  terminals = λ t.
      if ltb t max_terminals
      then record {
        buffer = fill_cells (d.terminals t).buffer;
        row = 0;
        col = 0;
        color = 0x07;
        cmd = [];
        pos = 0;
      }
      else d.terminals t;
}

-- The terminal with the screen copied to it.
abbrev pub saved : Terminal → Console → Terminal
saved t c = record t {
  buffer = copy_cells t.buffer c.video;
  row = c.row;
  col = c.col;
  color = c.current_color;
}

pub vt_save_current : Desk → Desk
vt_save_current d = record d {
  terminals =
      update d.terminals d.current_terminal (saved (d.terminals d.current_terminal) d.console);
}

pub vt_restore : ℕ → Desk → Desk
vt_restore term d =
    let t = d.terminals term in
    record d {
      console = record {
        video = copy_cells d.console.video t.buffer;
        row = t.row;
        col = t.col;
        current_color = t.color;
      };
    }

-- A negative `int` is 2 ^ 31 or more.
pub vt_switch : ℕ → Desk → Desk
unfolding vt_save_current vt_restore
vt_switch term d =
    if leb (2 ^ 31) term || leb max_terminals term || (term == d.current_terminal)
    then d
    else vt_restore term (record (vt_save_current d) { current_terminal = term })
