-- ===== src/Arch/Idt/Tests.antt =====
-- Stubs of sixteen bytes each.
use nedoos.Prelude.{ℕ, ◌+◌, ◌*◌, ◌%◌, ◌^◌}
use nedoos.Arch.Idt.{Idt, no_gate}

abbrev empty : Idt
empty = record { idt = λ num. no_gate; limit = 0; base = 0 }

abbrev stub : ℕ → ℕ
stub i = (0x100000 + 16 * i) % 2 ^ 32
