-- ===== src/Memory/Pmm/Tests.antt =====
-- A machine with two free frames, and the theorems applied to it.
use nedoos.Prelude.{
  ℕ, ◌*◌, ◌≡◌, ◌⊎◌, refl, true, false, List, [], ◌∷◌, IsBytes, arith, ◌==◌, if◌then◌else◌,
}
use nedoos.Memory.Pmm.{Pmm, page_count, bitmap_test, pmm_init, pmm_alloc_page}
use nedoos.Memory.Pmm.Scan.{AllUsed}
use nedoos.Memory.Pmm.Alloc.{used, IsValid, Grants, IsFull, pmm_alloc_page_cases}
use nedoos.Memory.Pmm.Init.{used-init}
use nedoos.Memory.Pmm.Ledger.{Call, alloc, free, run, IsLedger, run-IsLedger}

-- The frames 8 to 15 are free, and no other.
abbrev machine : Pmm
machine = record { memory_bitmap = λ i. if i == 1 then 0 else 0xff; last_allocated = 8 }

machine-IsValid : IsValid machine
machine-IsValid = record { bytes = λ i. ground arith; cursor = omega arith }

alloc_twice :
    let r = pmm_alloc_page machine in (r.1 ≡ 8 * 4096) × ((pmm_alloc_page r.0).1 ≡ 9 * 4096)
unfolding pmm_alloc_page bitmap_test
alloc_twice = (refl, refl)

zeroed-IsBytes : IsBytes (λ i. 0)
zeroed-IsBytes i = omega arith

pmm_alloc_page_cases_example :
    ((i : ℕ) × Grants machine (pmm_alloc_page machine) i) ⊎ IsFull machine (pmm_alloc_page machine)
pmm_alloc_page_cases_example = pmm_alloc_page_cases machine machine-IsValid

used-init_example :
    used (pmm_init (record { memory_bitmap = λ i. 0; last_allocated = 0 }) 0x800000) 300 ≡ false
used-init_example =
    used-init (record { memory_bitmap = λ i. 0; last_allocated = 0 }) 0x800000 300 zeroed-IsBytes
      (omega arith)

machine_has_room : ¬ AllUsed machine.memory_bitmap 0 page_count
unfolding bitmap_test
machine_has_room all =
    let h : bitmap_test machine.memory_bitmap 8 ≡ true = all 8 (omega arith) (omega arith) in cc

abbrev history : List Call
history = alloc ∷ alloc ∷ free 0x8000 ∷ alloc ∷ []

run-IsLedger_example : IsLedger (run (machine, []) history).0 (run (machine, []) history).1
run-IsLedger_example = run-IsLedger history machine [] machine-IsValid tt
