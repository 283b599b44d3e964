-- ===== src/Arch/Isr.antt =====
-- kernel/arch/i386/isr.c: the dispatch of exceptions and of the interrupts of the devices.
pub mod Acknowledge
mod Tests
use nedoos.Prelude.{
  ℕ, ◌+◌, ◌-◌, ◌*◌, ◌/◌, ◌%◌, ◌^◌, bit_and, Bool, true, false, ◌&&◌, not, Option, none, some,
  update, u8, u32, ltb, leb, ◌==◌, if◌then◌else◌,
}
use nedoos.Drivers.Ata.{Ports}

pub record Regs : Type 0 where
  pub int_no : ℕ
  pub err_code : ℕ

-- The messages of `isr_handler`.
pub data Exception : Type 0 where
  division_by_zero debug non_maskable breakpoint overflow bound_range invalid_opcode : Exception
  no_device double_fault coprocessor_overrun invalid_tss no_segment stack_fault : Exception
  general_protection page_fault reserved x87 alignment_check machine_check simd : Exception
  virtualization unknown : Exception

pub exception_of : ℕ → Exception
exception_of n =
    if n == 0
    then division_by_zero
    else if n == 1
    then debug
    else if n == 2
    then non_maskable
    else if n == 3
    then breakpoint
    else if n == 4
    then overflow
    else if n == 5
    then bound_range
    else if n == 6
    then invalid_opcode
    else if n == 7
    then no_device
    else if n == 8
    then double_fault
    else if n == 9
    then coprocessor_overrun
    else if n == 10
    then invalid_tss
    else if n == 11
    then no_segment
    else if n == 12
    then stack_fault
    else if n == 13
    then general_protection
    else if n == 14
    then page_fault
    else if n == 15
    then reserved
    else if n == 16
    then x87
    else if n == 17
    then alignment_check
    else if n == 18
    then machine_check
    else if n == 19
    then simd
    else if n == 20
    then virtualization
    else unknown

-- What is printed before the processor is halted for good.
pub record Panic : Type 0 where
  pub exception : Exception
  pub interrupt : ℕ
  pub error_code : Option ℕ

-- `none` where the handler returns.
pub isr_handler : Regs → Option Panic
unfolding exception_of
isr_handler r =
    if ltb r.int_no 32
    then some (record {
      exception = exception_of r.int_no;
      interrupt = r.int_no;
      error_code = if r.err_code == 0 then none else some r.err_code;
    })
    else none

-- The table, in which `H` names a handler, beside the rest of the machine.
pub record Machine (H W : Type 0) : Type 0 where
  pub irq_handlers : ℕ → Option H
  pub world : W

-- `irq >= 0 && irq < 16`, for an `int` held in 32 bits.
abbrev pub is_irq : ℕ → Bool
is_irq irq = ltb irq (2 ^ 31) && ltb irq 16

module _ {H W : Type 0} where
  pub irq_register_handler : ℕ → H → Machine H W → Machine H W
  irq_register_handler irq f m =
      if is_irq irq then record m { irq_handlers = update m.irq_handlers irq (some f) } else m

  pub irq_unregister_handler : ℕ → Machine H W → Machine H W
  irq_unregister_handler irq m =
      if is_irq irq then record m { irq_handlers = update m.irq_handlers irq none } else m

module _ {H W : Type 0} (p : Ports W) (call : H → Regs → Machine H W → Machine H W) where
  pub run_handler : Option H → Regs → Machine H W → Machine H W
  run_handler none r m = m
  run_handler (some f) r m = call f r m

  -- The slave first, if the interrupt is its own.
  pub end_of_interrupt : ℕ → W → W
  end_of_interrupt irq w =
      if leb 8 irq then p.outb 0x20 0x20 (p.outb 0xa0 0x20 w) else p.outb 0x20 0x20 w

  pub irq_handler : Regs → Machine H W → Machine H W
  unfolding run_handler end_of_interrupt
  irq_handler r m =
      if leb 32 r.int_no && leb r.int_no 47
      then (let irq = r.int_no - 32 in
          let m1 = run_handler (m.irq_handlers irq) r m in
          record m1 { world = end_of_interrupt irq m1.world })
      else m
