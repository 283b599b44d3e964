-- ===== src/Arch/Idt/Vector.antt =====
-- Which handler the processor finds for each vector.
use nedoos.Prelude.{ℕ, ◌+◌, ◌*◌, ◌^◌, Option, none, some, ltb, if◌then◌else◌}
use nedoos.Arch.Idt.{IdtEntry, Idt}

-- The processor's reading of a gate: its address, in the segment of the kernel's code, if the gate
-- is present.
pub handler : IdtEntry → Option ℕ
handler e = if ltb e.flags 0x80 then none else some (e.base_low + e.base_high * 2 ^ 16)

abbrev pub vector : Idt → ℕ → Option ℕ
vector t v = handler (t.idt v)
