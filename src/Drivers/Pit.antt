-- ===== src/Drivers/Pit.antt =====
-- The interval timer: kernel/drivers/timer.c, and `init_timer`, `timer_handler` and `beep` of
-- kernel/kernel.c, which are over the instructions that reach the ports.
pub mod Reload
mod Tests
use nedoos.Prelude.{
  ℕ, zero, suc, ◌+◌, ◌*◌, ◌/◌, ◌%◌, ◌^◌, bit_and, bit_or, Option, none, some, ◌>>=◌, u8, u32, ◌==◌,
  if◌then◌else◌,
}
use nedoos.Drivers.Ata.{Ports}
use nedoos.Arch.Isr.{Machine, irq_register_handler}

-- timer_ticks++
pub timer_handler : ℕ → ℕ
timer_handler timer_ticks = u32 (timer_ticks + 1)

-- 1193180 / frequency; a division by 0 is a fault.
pub divisor : ℕ → Option ℕ
divisor frequency = if frequency == 0 then none else some (1193180 / frequency)

module _ {W : Type 0} (p : Ports W) where
  -- The command, and the divisor, low byte first.
  pub set_divisor : ℕ → ℕ → ℕ → W → W
  set_divisor command channel d w =
      p.outb channel (bit_and (d / 2 ^ 8) 0xff)
        (p.outb channel (bit_and d 0xff) (p.outb 0x43 command w))

  pub init_timer : ℕ → W → Option W
  unfolding divisor set_divisor
  init_timer frequency w = do d ← divisor frequency; some (set_divisor 0x36 0x40 d w)

  -- The waiting loop has no effect.
  pub beep : ℕ → W → Option W
  unfolding divisor set_divisor
  beep frequency w =
      let r = p.inb 0x61 w in
      let w1 = p.outb 0x61 (u8 (bit_or r.0 3)) r.1 in
      do
        d ← divisor frequency
        let r2 = p.inb 0x61 (set_divisor 0xb6 0x42 d w1)
        some (p.outb 0x61 (bit_and r2.0 0xfc) r2.1)

  pub timer_install : {H : Type 0} → H → ℕ → Machine H W → Option (Machine H W)
  unfolding init_timer
  timer_install handler frequency m =
      let m1 = irq_register_handler 0 handler m in
      do w ← init_timer frequency m1.world; some (record m1 { world = w })
