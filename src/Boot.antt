-- ===== src/Boot.antt =====
-- kernel/kernel.c: what `kernel_main` does before it reads the keyboard.
mod Variables
mod Start
mod Tests
use nedoos.Prelude.{ℕ, ◌+◌, ◌*◌, ◌/◌, ◌^◌, bit_or, List, [], ◌∷◌, Option, none, some, ◌>>=◌, u8}
use nedoos.Console.{Console, print, set_color, clear_screen}
use nedoos.Console.Terminals.{Desk, vt_init}
use nedoos.Drivers.Ata.{Ports}
use nedoos.Drivers.Mouse.{Mouse, mouse_init}
use nedoos.Drivers.Pit.{init_timer}
use nedoos.Net.Banner.{announce}
use nedoos.Net.Stack.{Net, network_init}
use nedoos.Shell.Env.{Env, env_set}

-- The variables of the kernel. The memory of the screen is that of the console of `desk`, which the
-- mouse is given when it is called.
pub record System (W : Type 0) : Type 0 where
  pub desk : Desk
  pub mouse : Mouse
  pub mouse_present : ℕ
  pub net : Net
  pub env : Env
  pub world : W

abbrev pub color_green : ℕ
color_green = 2

abbrev pub color_cyan : ℕ
color_cyan = 3

abbrev title : List ℕ
title =
    78 ∷ 101 ∷ 100 ∷ 111 ∷ 79 ∷ 83 ∷ 32 ∷ 85 ∷ 108 ∷ 116 ∷ 105 ∷ 109 ∷ 97 ∷ 116 ∷ 101 ∷ 32 ∷ 69
    ∷ 100 ∷ 105 ∷ 116 ∷ 105 ∷ 111 ∷ 110 ∷ 32 ∷ 119 ∷ 105 ∷ 116 ∷ 104 ∷ 32 ∷ 78 ∷ 101 ∷ 116 ∷ 119
    ∷ 111 ∷ 114 ∷ 107 ∷ 10 ∷ []

abbrev commands : List ℕ
commands =
    67 ∷ 111 ∷ 109 ∷ 109 ∷ 97 ∷ 110 ∷ 100 ∷ 115 ∷ 58 ∷ 32 ∷ 104 ∷ 101 ∷ 108 ∷ 112 ∷ 44 ∷ 32 ∷ 109
    ∷ 111 ∷ 117 ∷ 110 ∷ 116 ∷ 44 ∷ 32 ∷ 108 ∷ 115 ∷ 44 ∷ 32 ∷ 99 ∷ 97 ∷ 116 ∷ 44 ∷ 32 ∷ 99 ∷ 100
    ∷ 44 ∷ 32 ∷ 112 ∷ 119 ∷ 100 ∷ 44 ∷ 32 ∷ 101 ∷ 99 ∷ 104 ∷ 111 ∷ 44 ∷ 32 ∷ 99 ∷ 111 ∷ 108 ∷ 111
    ∷ 114 ∷ 44 ∷ 32 ∷ 114 ∷ 101 ∷ 98 ∷ 111 ∷ 111 ∷ 116 ∷ 44 ∷ 32 ∷ 99 ∷ 108 ∷ 101 ∷ 97 ∷ 114 ∷ 44
    ∷ 32 ∷ 112 ∷ 105 ∷ 110 ∷ 103 ∷ 10 ∷ []

abbrev keys : List ℕ
keys =
    65 ∷ 108 ∷ 116 ∷ 43 ∷ 70 ∷ 49 ∷ 46 ∷ 46 ∷ 70 ∷ 52 ∷ 32 ∷ 45 ∷ 32 ∷ 116 ∷ 101 ∷ 114 ∷ 109 ∷ 105
    ∷ 110 ∷ 97 ∷ 108 ∷ 115 ∷ 32 ∷ 124 ∷ 32 ∷ 65 ∷ 108 ∷ 116 ∷ 43 ∷ 85 ∷ 112 ∷ 47 ∷ 68 ∷ 111 ∷ 119
    ∷ 110 ∷ 32 ∷ 45 ∷ 32 ∷ 104 ∷ 105 ∷ 115 ∷ 116 ∷ 111 ∷ 114 ∷ 121 ∷ 10 ∷ 62 ∷ 32 ∷ []

abbrev timer_ready : List ℕ
timer_ready =
    84 ∷ 105 ∷ 109 ∷ 101 ∷ 114 ∷ 32 ∷ 105 ∷ 110 ∷ 105 ∷ 116 ∷ 105 ∷ 97 ∷ 108 ∷ 105 ∷ 122 ∷ 101 ∷ 100
    ∷ 10 ∷ []

abbrev mouse_ready : List ℕ
mouse_ready =
    77 ∷ 111 ∷ 117 ∷ 115 ∷ 101 ∷ 32 ∷ 105 ∷ 110 ∷ 105 ∷ 116 ∷ 105 ∷ 97 ∷ 108 ∷ 105 ∷ 122 ∷ 101 ∷ 100
    ∷ 10 ∷ []

abbrev usb_text : List ℕ
usb_text =
    85 ∷ 83 ∷ 66 ∷ 32 ∷ 67 ∷ 111 ∷ 110 ∷ 116 ∷ 114 ∷ 111 ∷ 108 ∷ 108 ∷ 101 ∷ 114 ∷ 32 ∷ 105 ∷ 110
    ∷ 105 ∷ 116 ∷ 46 ∷ 46 ∷ 46 ∷ 10 ∷ []

abbrev pub path_name : List ℕ
path_name = 80 ∷ 65 ∷ 84 ∷ 72 ∷ []

abbrev pub home_name : List ℕ
home_name = 72 ∷ 79 ∷ 77 ∷ 69 ∷ []

abbrev pub user_name : List ℕ
user_name = 85 ∷ 83 ∷ 69 ∷ 82 ∷ []

abbrev pub root : List ℕ
root = 47 ∷ []

abbrev pub user : List ℕ
user = 117 ∷ 115 ∷ 101 ∷ 114 ∷ []

-- The console after the function.
pub on_console : {W : Type 0} → (Console → Console) → System W → System W
on_console f s = record s { desk = record (s.desk) { console = f s.desk.console } }

pub set_variables : Env → Env
set_variables e = env_set user_name user (env_set home_name root (env_set path_name root e))

module _ {W : Type 0} (p : Ports W) where
  -- The mouse is switched on by the controller of the keyboard.
  pub enable_mouse : W → W
  enable_mouse w =
      let r = p.inb 0x60 (p.outb 0x64 0x20 (p.outb 0x64 0xa8 w)) in
      let w1 = p.outb 0x60 (u8 (bit_or r.0 2)) (p.outb 0x64 0x60 r.1) in
      p.outb 0x60 0xf4 (p.outb 0x64 0xd4 w1)

  pub start_timer : System W → Option (System W)
  unfolding on_console
  start_timer s = do
    w ← init_timer p 100 s.world
    some (on_console (print timer_ready) (record s { world = w }))

  pub start_mouse : System W → System W
  unfolding on_console enable_mouse
  start_mouse s = on_console (print mouse_ready) (record s {
    mouse = mouse_init (record (s.mouse) { video = s.desk.console.video });
    mouse_present = 1;
    world = enable_mouse s.world;
  })

  pub usb_init : System W → System W
  unfolding on_console
  usb_init s =
      let s' = on_console (print usb_text) s in record s' { world = p.outb 0x64 0xd4 s'.world }

  pub start_network : System W → Option (System W)
  start_network s = do
    c ← announce s.desk.console
    some (record s { desk = record (s.desk) { console = c }; net = network_init s.net })

  -- Up to the variables and the loop of `kernel_main`.
  pub kernel_main : System W → Option (System W)
  unfolding on_console start_timer start_mouse usb_init start_network set_variables
  kernel_main s =
      let s1 = on_console (λ c. print title (set_color color_green (clear_screen c))) s in
      do
        s2 ← start_timer (record s1 { desk = vt_init s1.desk })
        s3 ← start_network (usb_init (start_mouse s2))
        some (
            on_console (λ c. print keys (print commands (set_color color_cyan c)))
              (record s3 { env = set_variables s3.env }))
