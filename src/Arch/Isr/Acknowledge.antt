-- ===== src/Arch/Isr/Acknowledge.antt =====
-- An interrupt runs the handler that was registered for it, and is acknowledged once.
use nedoos.Prelude.{
  ℕ, ◌+◌, ◌-◌, ◌<◌, ◌≡◌, refl, ap, ◌∙◌, true, false, Option, none, some, ◌&&◌, ◌∷◌, ltb, leb,
  if◌then◌else◌, arith, Bool-cases, inl, inr, eq→==, le→not-ltb, leb→le,
}
use nedoos.Drivers.Ata.{Ports}
use nedoos.Arch.Pic.Chip.{Chip, IsWired, command}
use nedoos.Arch.Isr.{
  Regs, Machine, irq_register_handler, irq_unregister_handler, run_handler, end_of_interrupt,
  irq_handler, is_irq,
}

-- What an interrupt leaves in the two controllers before it is acknowledged: the slave's come in
-- by line 2 of the master.
abbrev pub raise_master : ℕ → Chip → Chip
raise_master irq c =
    if ltb irq 8
    then record c { in_service = irq ∷ c.in_service }
    else record c { in_service = 2 ∷ c.in_service }

abbrev pub raise_slave : ℕ → Chip → Chip
raise_slave irq c = if ltb irq 8 then c else record c { in_service = (irq - 8) ∷ c.in_service }

valid : (irq : ℕ) → irq < 16 → is_irq irq ≡ true
valid irq small = ground arith

module _ {H W : Type 0} where
  registered :
      (irq : ℕ) (f : H) (m : Machine H W)
      → irq < 16
      → (irq_register_handler irq f m).irq_handlers irq ≡ some f
  unfolding irq_register_handler
  registered irq f m small = rw (valid irq small) (rw (eq→== irq irq refl) refl)

  unregistered :
      (irq : ℕ) (m : Machine H W)
      → irq < 16
      → (irq_unregister_handler irq m).irq_handlers irq ≡ none
  unfolding irq_unregister_handler
  unregistered irq m small = rw (valid irq small) (rw (eq→== irq irq refl) refl)

module _ {H W : Type 0} (p : Ports W) (call : H → Regs → Machine H W → Machine H W) where
  abbrev pub acknowledged : ℕ → Machine H W → Machine H W
  acknowledged irq m = record m { world = end_of_interrupt p call irq m.world }

  irq_handler-irq :
      (irq err_code : ℕ) (m : Machine H W)
      → irq < 16
      → let r : Regs = record { int_no = 32 + irq; err_code = err_code } in
        irq_handler p call r m ≡ acknowledged irq (run_handler p call (m.irq_handlers irq) r m)
  unfolding irq_handler
  irq_handler-irq irq err_code m small = rw in_range (rw place refl)
    where
      in_range : (leb 32 (32 + irq) && leb (32 + irq) 47) ≡ true
      in_range = ground arith

      place : 32 + irq - 32 ≡ irq
      place = omega arith

  -- A registered handler is run once, before the acknowledgement; after it is unregistered none is.
  pub irq_handler-registered :
      (irq err_code : ℕ) (f : H) (m : Machine H W)
      → irq < 16
      → let r : Regs = record { int_no = 32 + irq; err_code = err_code } in
        let on : Machine H W = irq_register_handler irq f m in
        let off : Machine H W = irq_unregister_handler irq m in
        (irq_handler p call r on ≡ acknowledged irq (call f r on))
        × (irq_handler p call r off ≡ acknowledged irq off)
  unfolding run_handler
  irq_handler-registered irq err_code f m small = (
    irq_handler-irq irq err_code (irq_register_handler irq f m) small
        ∙ ap
            (λ (o : Option H). acknowledged irq (
              run_handler p call o (record { int_no = 32 + irq; err_code = err_code })
                (irq_register_handler irq f m)))
            (registered irq f m small),
    irq_handler-irq irq err_code (irq_unregister_handler irq m) small
        ∙ ap
            (λ (o : Option H). acknowledged irq (
              run_handler p call o (record { int_no = 32 + irq; err_code = err_code })
                (irq_unregister_handler irq m)))
            (unregistered irq m small),
  )

module _ {H W : Type 0} (p : Ports W) (call : H → Regs → Machine H W → Machine H W)
    (master slave : W → Chip) (h : IsWired p master slave) where
  -- Handlers leave the controllers alone.
  pub record IsQuiet : Type 0 where
    pub keeps_master :
        (f : H) (r : Regs) (m : Machine H W) → master (call f r m).world ≡ master m.world
    pub keeps_slave :
        (f : H) (r : Regs) (m : Machine H W) → slave (call f r m).world ≡ slave m.world

  run_handler-chips :
      (o : Option H) (r : Regs) (m : Machine H W)
      → IsQuiet
      → (master (run_handler p call o r m).world ≡ master m.world)
        × (slave (run_handler p call o r m).world ≡ slave m.world)
  unfolding run_handler
  run_handler-chips none r m q = (refl, refl)
  run_handler-chips (some f) r m q = (q.keeps_master f r m, q.keeps_slave f r m)

  end_of_interrupt-chips :
      (irq : ℕ) (w : W) (c d : Chip)
      → master w ≡ raise_master irq c
      → slave w ≡ raise_slave irq d
      → (master (end_of_interrupt p call irq w) ≡ c) × (slave (end_of_interrupt p call irq w) ≡ d)
  unfolding end_of_interrupt
  end_of_interrupt-chips irq w c d em es = elim (Bool-cases (leb 8 irq)) [
    | inl high ↦
        let far : ltb irq 8 ≡ false = le→not-ltb irq 8 (leb→le 8 irq high) in
        rw high (
          h.master_command 0x20 _ ∙ ap (command 0x20) (h.slave_command_keeps 0x20 w ∙ rw far at em),
          h.master_command_keeps 0x20 _ ∙ h.slave_command 0x20 w ∙ ap (command 0x20) (rw far at es),
        )
    | inr low ↦
        let near : ltb irq 8 ≡ true = ground (arith, low) in
        rw low (
          h.master_command 0x20 w ∙ ap (command 0x20) (rw near at em),
          h.master_command_keeps 0x20 w ∙ rw near at es,
        )
  ]

  -- An interrupt of a device that the controllers brought in is acknowledged, on the slave too
  -- where it came from there, so that the controllers are as before it; provided that the handlers
  -- leave them alone.
  pub irq_handler-acknowledges :
      (irq err_code : ℕ) (m : Machine H W) (c d : Chip)
      → IsQuiet
      → irq < 16
      → master m.world ≡ raise_master irq c
      → slave m.world ≡ raise_slave irq d
      → let r : Regs = record { int_no = 32 + irq; err_code = err_code } in
        (master (irq_handler p call r m).world ≡ c) × (slave (irq_handler p call r m).world ≡ d)
  irq_handler-acknowledges irq err_code m c d q small em es =
      let r : Regs = record { int_no = 32 + irq; err_code = err_code } in
      let chips = run_handler-chips (m.irq_handlers irq) r m q in
      rw (irq_handler-irq p call irq err_code m small) (
        end_of_interrupt-chips irq (run_handler p call (m.irq_handlers irq) r m).world c d
          (chips.0 ∙ em) (chips.1 ∙ es))
