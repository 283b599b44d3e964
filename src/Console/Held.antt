-- ===== src/Console/Held.antt =====
-- What the functions that print leave as it was, as far as the cursor and the memory go.
use nedoos.Prelude.{ℕ, ◌^◌, ◌≤◌, ◌<◌, ◌≡◌, ◌∙◌, refl, List, arith, Gives}
use nedoos.Console.{Console, putchar, print, print_dec, set_color, clear_screen}
use nedoos.Console.Decimal.{print_dec_lem}
use nedoos.Console.Screen.{IsOnScreen, print-Stays, putchar-Stays, blank_cells-get}

-- The cursor on the screen, and past its cells the memory as it was in `v`.
pub record Held (v : ℕ → ℕ) (c : Console) : Type 0 where
  pub on : IsOnScreen c
  pub past : (i : ℕ) → 2000 ≤ i → c.video i ≡ v i

pub print-Held : (v : ℕ → ℕ) (cs : List ℕ) (c : Console) → Held v c → Held v (print cs c)
print-Held v cs c h =
    let t = print-Stays cs c h.on in record { on = t.on; past = λ i b. t.past i b ∙ h.past i b }

pub putchar-Held : (v : ℕ → ℕ) (x : ℕ) (c : Console) → Held v c → Held v (putchar x c)
putchar-Held v x c h =
    let t = putchar-Stays c x h.on in record { on = t.on; past = λ i b. t.past i b ∙ h.past i b }

pub print-color :
    (v : ℕ → ℕ) (cs : List ℕ) (c : Console)
    → Held v c
    → (print cs c).current_color ≡ c.current_color
print-color v cs c h = (print-Stays cs c h.on).color

pub print_dec-Held :
    (v : ℕ → ℕ) (num : ℕ) (c : Console) → num < 2 ^ 32 → Held v c → Gives (Held v) (print_dec num c)
unfolding Gives
print_dec-Held v num c b h =
    let (cs, e, _, _, _) = print_dec_lem num c b in (print cs c, e, print-Held v cs c h)

pub set_color-Held : (v : ℕ → ℕ) (fg : ℕ) (c : Console) → Held v c → Held v (set_color fg c)
unfolding set_color
set_color-Held v fg c h = record { on = record { row = h.on.row; col = h.on.col }; past = h.past }

pub set_color-color : (fg : ℕ) (c : Console) → (set_color fg c).current_color ≡ fg
unfolding set_color
set_color-color fg c = refl

pub clear_screen-Held : (c : Console) → Held c.video (clear_screen c)
unfolding clear_screen
clear_screen-Held c = record {
  on = record { row = omega arith; col = omega arith };
  past = λ i b. ground (arith, blank_cells-get c.current_color 0 2000 c.video i);
}
