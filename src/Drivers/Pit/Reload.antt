-- ===== src/Drivers/Pit/Reload.antt =====
-- The value that the timer counts down from.
use nedoos.Prelude.{
  ℕ, ◌+◌, ◌*◌, ◌/◌, ◌%◌, ◌^◌, ◌≤◌, ◌<◌, ◌≡◌, refl, ◌∙◌, some, ne→==, ◌==◌, if◌then◌else◌, arith,
}
use native.Mathlib.Nat.{div-lt_iff_lt-mul}
use nedoos.Prelude.Bits.{bit_and_mask}
use nedoos.Drivers.Ata.{Ports}
use nedoos.Drivers.Pit.{divisor, set_divisor, init_timer}

-- What the data sheet of the 8253 says: a command for the low and then the high byte makes the
-- channel await them, and the two bytes are the value to count from. The value 0 stands for 2 ^ 16.
pub record Channel : Type 0 where
  pub low_next : ℕ
  pub low : ℕ
  pub reload : ℕ

abbrev pub write_byte : ℕ → Channel → Channel
write_byte v c =
    if c.low_next == 1
    then record c { low_next = 0; low = v }
    else record c { low_next = 1; reload = c.low + 2 ^ 8 * v }

pub record IsPit {W : Type 0} (p : Ports W) (channel : W → Channel) : Type 0 where
  pub command : (w : W) → channel (p.outb 0x43 0x36 w) ≡ record (channel w) { low_next = 1 }
  pub value : (v : ℕ) (w : W) → channel (p.outb 0x40 v w) ≡ write_byte v (channel w)

fits : (frequency : ℕ) → 19 ≤ frequency → 1193180 / frequency < 2 ^ 16
fits frequency h = (div-lt_iff_lt-mul (omega arith)).1 (omega arith)

divisor-some : (frequency : ℕ) → 0 < frequency → divisor frequency ≡ some (1193180 / frequency)
unfolding divisor
divisor-some frequency h = rw (ne→== frequency 0 (omega arith)) refl

module _ {W : Type 0} (p : Ports W) (channel : W → Channel) (h : IsPit p channel) where
  divisor-reload : (d : ℕ) (w : W) → (channel (set_divisor p 0x36 0x40 d w)).reload ≡ d % 2 ^ 16
  unfolding set_divisor
  divisor-reload d w =
      simp (h.command, h.value) (omega (arith, bit_and_mask 8 d, bit_and_mask 8 (d / 2 ^ 8)))

  init_timer-some :
      (frequency : ℕ) (w : W)
      → 0 < frequency
      → init_timer p frequency w ≡ some (set_divisor p 0x36 0x40 (1193180 / frequency) w)
  unfolding init_timer
  init_timer-some frequency w h = rw (divisor-some frequency h) refl

  -- `init_timer` makes the timer count from the quotient of its clock and the frequency; below 19
  -- Hz the quotient has more than 16 bits, and only those count.
  pub init_timer-reload :
      (frequency : ℕ) (w : W)
      → 0 < frequency
      → (w' : W) × (init_timer p frequency w ≡ some w')
        × ((channel w').reload ≡ 1193180 / frequency % 2 ^ 16)
        × (19 ≤ frequency → (channel w').reload ≡ 1193180 / frequency)
  init_timer-reload frequency w h = (
    set_divisor p 0x36 0x40 (1193180 / frequency) w,
    init_timer-some frequency w h,
    divisor-reload (1193180 / frequency) w,
    λ enough. divisor-reload (1193180 / frequency) w ∙ omega (arith, fits frequency enough),
  )
