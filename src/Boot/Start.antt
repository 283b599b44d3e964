-- ===== src/Boot/Start.antt =====
-- What `kernel_main` has done when it comes to its loop.
use nedoos.Prelude.{ℕ, ◌+◌, ◌≤◌, ◌<◌, ◌≡◌, ◌≢◌, refl, sym, subst, ap, ◌∙◌, false, arith, Gives}
use nedoos.Console.{Console, print, set_color, clear_screen}
use nedoos.Console.Held.{
  Held, print-Held, print-color, set_color-Held, set_color-color, clear_screen-Held,
}
use nedoos.Console.Terminals.{Desk, max_terminals, vt_init}
use nedoos.Console.Terminals.Fresh.{IsFresh, vt_init-IsFresh, console-vt_init}
use nedoos.Drivers.Ata.{Ports}
use nedoos.Drivers.Pit.Reload.{Channel, IsPit, init_timer-reload}
use nedoos.Net.Banner.Shown.{announce-Held}
use nedoos.Net.Stack.{network_init}
use nedoos.Shell.Env.{max_env}
use nedoos.Boot.{
  System, color_green, color_cyan, title, commands, keys, timer_ready, mouse_ready, usb_text,
  on_console, set_variables, enable_mouse, start_timer, start_mouse, usb_init, start_network,
  kernel_main,
}
use nedoos.Boot.Variables.{HasVariables, set_variables-HasVariables}

-- The other ports are not the timer's.
pub record IsApart {W : Type 0} (p : Ports W) (channel : W → Channel) : Type 0 where
  pub read : (port : ℕ) (w : W) → channel (p.inb port w).1 ≡ channel w
  pub write :
      (port v : ℕ) (w : W) → port ≢ 0x40 → port ≢ 0x43 → channel (p.outb port v w) ≡ channel w

-- The system `r`, started from `s`.
pub record Started {W : Type 0} (channel : W → Channel) (s r : System W) : Type 0 where
  pub screen : Held s.desk.console.video r.desk.console
  pub color : r.desk.console.current_color ≡ color_cyan
  pub terminals : (t : ℕ) → t < max_terminals → IsFresh (r.desk.terminals t)
  pub variables : HasVariables r.env
  pub timer : (channel r.world).reload ≡ 11931
  pub mouse : r.mouse_present ≡ 1
  pub request : r.net.ping_request.waiting ≡ false

module _ {W : Type 0} (p : Ports W) (channel : W → Channel) (pit : IsPit p channel)
    (apart : IsApart p channel) where
  to_keyboard : (v : ℕ) (w : W) → channel (p.outb 0x60 v w) ≡ channel w
  to_keyboard v w =
      apart.write 0x60 v w (λ e. absurd (omega (arith, e))) (λ e. absurd (omega (arith, e)))

  to_controller : (v : ℕ) (w : W) → channel (p.outb 0x64 v w) ≡ channel w
  to_controller v w =
      apart.write 0x64 v w (λ e. absurd (omega (arith, e))) (λ e. absurd (omega (arith, e)))

  enable_mouse-channel : (w : W) → channel (enable_mouse p w) ≡ channel w
  unfolding enable_mouse
  enable_mouse-channel w = simp (to_keyboard, to_controller, apart.read) refl

  -- From any screen and with room for three variables `kernel_main` reaches its loop: the cursor is on
  -- the screen and no word past it has changed, the colour is cyan, the four terminals are empty, PATH,
  -- HOME and USER have their values, the timer counts down from 11931 for 100 ticks a second, the
  -- mouse is present and no ping waits. The timer answers as its data sheet says, and no other port
  -- changes it.
  pub kernel_main-Started :
      (s : System W) → s.env.env_count + 3 ≤ max_env → Gives (Started channel s) (kernel_main p s)
  unfolding Gives kernel_main on_console start_timer start_mouse usb_init start_network network_init
  kernel_main-Started s room =
      let v = s.desk.console.video in
      let c0 = print title (set_color color_green (clear_screen s.desk.console)) in
      let d0 : Desk = record (s.desk) { console = c0 } in
      let h0 : Held v c0 =
        print-Held v title _ (set_color-Held v color_green _ (clear_screen-Held s.desk.console)) in
      let h1 : Held v (vt_init d0).console = subst (Held v) (sym (console-vt_init d0)) h0 in
      let h2 =
        print-Held v usb_text _ (print-Held v mouse_ready _ (print-Held v timer_ready _ h1)) in
      let (w, ticking, _, reload) = init_timer-reload p channel pit 100 s.world (omega arith) in
      let (c, shown, h3) = announce-Held v _ h2 in
      let end : Console = set_color color_cyan c in
      let h4 : Held v end = set_color-Held v color_cyan c h3 in
      let h5 = print-Held v commands end h4 in
      let s2 = on_console (print timer_ready) (record s { desk = vt_init d0; world = w }) in
      let s3 = usb_init p (start_mouse p s2) in
      let s4 = record s3 { desk = record (s3.desk) { console = end }; net = network_init s3.net } in
      (
        on_console (λ x. print keys (print commands x)) (record s4 { env = set_variables s4.env }),
        rw (ticking, shown) refl,
        record {
          screen = print-Held v keys _ h5;
          color =
              print-color v keys _ h5
              ∙ print-color v commands end h4
              ∙ set_color-color color_cyan c;
          terminals = vt_init-IsFresh d0;
          variables = set_variables-HasVariables s.env room;
          timer =
              ap (λ x. x.reload) (to_controller 0xd4 (enable_mouse p w) ∙ enable_mouse-channel w)
              ∙ reload (omega arith);
          mouse = refl;
          request = refl;
        },
      )
