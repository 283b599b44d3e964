-- ===== src/Memory/Vmm/Tests.antt =====
-- A directory with one table, and the theorems applied to it.
use nedoos.Prelude.{
  ℕ, ◌+◌, ◌*◌, ◌^◌, ◌≡◌, refl, true, false, none, some, List, [], ◌∷◌, if◌then◌else◌, ◌==◌, ltb,
  arith,
}
use nedoos.Memory.Pmm.{Pmm, page_count, bitmap_test, pmm_alloc_page}
use nedoos.Memory.Pmm.Alloc.{IsValid}
use nedoos.Memory.Pmm.Scan.{AllUsed}
use nedoos.Memory.Vmm.{Vmm, vmm_init, vmm_map_page, present}
use nedoos.Memory.Vmm.Space.{translate, IsPaged, directory_entry}
use nedoos.Memory.Vmm.Identity.{vmm_init-translate}
use nedoos.Memory.Vmm.Calls.{Request, user_may, vmm_map_page-no_user}

-- The frames 8 to 15 are free, and no other.
abbrev frames : Pmm
frames = record { memory_bitmap = λ i. if i == 1 then 0 else 0xff; last_allocated = 8 }

frames-IsValid : IsValid frames
frames-IsValid = record { bytes = λ i. ground arith; cursor = omega arith }

has_room : ¬ AllUsed frames.memory_bitmap 0 page_count
unfolding bitmap_test
has_room all =
    let h : bitmap_test frames.memory_bitmap 8 ≡ true = all 8 (omega arith) (omega arith) in cc

has_more_room : ¬ AllUsed (pmm_alloc_page frames).0.memory_bitmap 0 page_count
unfolding bitmap_test pmm_alloc_page
has_more_room all =
    let h : bitmap_test (pmm_alloc_page frames).0.memory_bitmap 9 ≡ true =
      all 9 (omega arith) (omega arith) in
    cc

abbrev blank : Vmm
blank = record { pmm = frames; memory = λ i. 0; current_directory = 0 }

vmm_init-translate_example :
    IsPaged (vmm_init blank)
    × (translate (vmm_init blank) 0xb8000 ≡ (if ltb 0xb8000 (2 ^ 22) then some 0xb8000 else none))
vmm_init-translate_example =
    vmm_init-translate blank 0xb8000 frames-IsValid has_room has_more_room (omega arith)

-- The directory in frame 1, with a table in frame 2 for its first entry.
abbrev paged : Vmm
paged = record {
  pmm = frames;
  memory = λ i. if i == 1024 then 2 * 4096 + 3 else 0;
  current_directory = 4096;
}

first_only : (i : ℕ) → present (directory_entry paged i) ≡ 1 → i ≡ 0
first_only i h = ground arith

paged-IsPaged : IsPaged paged
unfolding bitmap_test
paged-IsPaged = record {
  valid = frames-IsValid;
  aligned = refl;
  in_use = refl;
  in_range = omega arith;
  table_in_use = λ i q o. rw (first_only i o) refl;
  no_directory = λ i q o. rw (first_only i o) (omega arith);
  apart = λ a b qa qb n oa ob. absurd (ground (arith, first_only a oa, first_only b ob));
}

abbrev requests : List Request
requests =
    record { phys_addr = 0xa000; virt_addr = 0x1000; flags = 1 }
    ∷ record { phys_addr = 0x9000; virt_addr = 0x400000; flags = 3 }
    ∷ []

vmm_map_page-no_user_example : user_may (vmm_map_page paged 0x9000 0x3000 3).0 0x3000 ≡ false
vmm_map_page-no_user_example =
    vmm_map_page-no_user paged 0x9000 0x3000 3 paged-IsPaged (omega arith) (omega arith) refl refl
