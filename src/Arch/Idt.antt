-- ===== src/Arch/Idt.antt =====
-- kernel/arch/i386/idt.c: the table of the interrupt gates.
-- The entry points of the assembler stubs, isr0 to isr31 and irq0 to irq15, are two functions.
pub mod Vector
mod Tests
use nedoos.Prelude.{ℕ, ◌+◌, ◌-◌, ◌*◌, ◌/◌, ◌^◌, bit_and, update, for_up, u8}

pub record IdtEntry : Type 0 where
  pub base_low : ℕ
  pub sel : ℕ
  pub always0 : ℕ
  pub flags : ℕ
  pub base_high : ℕ

-- The table, and the register that `idt_load` is given.
pub record Idt : Type 0 where
  pub idt : ℕ → IdtEntry
  pub limit : ℕ
  pub base : ℕ

pub idt_set_gate : ℕ → ℕ → ℕ → ℕ → Idt → Idt
idt_set_gate num base sel flags t = record t {
  idt = update t.idt (u8 num) (record {
    base_low = bit_and base 0xffff;
    sel = sel;
    always0 = 0;
    flags = flags;
    base_high = bit_and (base / 2 ^ 16) 0xffff;
  });
}

abbrev pub no_gate : IdtEntry
no_gate = record { base_low = 0; sel = 0; always0 = 0; flags = 0; base_high = 0 }

-- One call to a stub: 32 for the exceptions, 16 for the devices.
pub set_gates : ℕ → ℕ → (ℕ → ℕ) → Idt → Idt
unfolding idt_set_gate
set_gates from n stub t = for_up n 0 (λ i (s : Idt). idt_set_gate (from + i) (stub i) 0x08 0x8e s) t

-- An entry has 8 bytes. The table is filled with zeros.
abbrev pub cleared : ℕ → Idt
cleared address = record { idt = λ num. no_gate; limit = 8 * 256 - 1; base = address }

pub idt_install : (ℕ → ℕ) → (ℕ → ℕ) → ℕ → Idt → Idt
unfolding set_gates
idt_install isr irq address t = set_gates 32 16 irq (set_gates 0 32 isr (cleared address))
