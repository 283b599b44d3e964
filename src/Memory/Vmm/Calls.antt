-- ===== src/Memory/Vmm/Calls.antt =====
-- Any run of calls of `vmm_map_page`, seen as a partial function from pages to frames with rights.
use nedoos.Prelude.{
  ℕ, ◌/◌, ◌^◌, ◌<◌, ◌≡◌, Bool, false, ◌&&◌, Option, some, List, [], ◌∷◌, if◌then◌else◌, ◌==◌, arith,
}
use nedoos.Memory.Pmm.{page_size}
use nedoos.Memory.Vmm.{Vmm, present, user, vmm_map_page, page_directory_index}
use nedoos.Memory.Vmm.Space.{Page, directory_entry, table_entry, IsPaged}
use nedoos.Memory.Vmm.Mapping.{requested, HasTable, vmm_map_page-entry}

pub record Request : Type 0 where
  pub phys_addr : ℕ
  pub virt_addr : ℕ
  pub flags : ℕ

abbrev pub after : Vmm → Request → Vmm
after s r = (vmm_map_page s r.phys_addr r.virt_addr r.flags).0

abbrev pub run : Vmm → List Request → Vmm
run s [] = s
run s (r ∷ rs) = run (after s r) rs

-- The same requests, on a function: the last one for a page counts.
abbrev pub replay : (ℕ → Option Page) → List Request → ℕ → Option Page
replay f [] = f
replay f (r ∷ rs) =
    replay
      (λ page.
        if page == r.virt_addr / page_size then some (requested r.phys_addr r.flags) else f page)
      rs

-- There is room for the tables, and the addresses have 32 bits.
abbrev pub CanRun : Vmm → List Request → Type 0
CanRun s [] = Unit {0}
CanRun s (r ∷ rs) =
    HasTable s r.virt_addr × (r.phys_addr < 2 ^ 32) × (r.virt_addr < 2 ^ 32) × CanRun (after s r) rs

-- The user may use a page if both entries on the way to it say so.
pub user_may : Vmm → ℕ → Bool
user_may s v =
    user (directory_entry s (v / 2 ^ 22)) == 1 && user (table_entry s (v / page_size)) == 1

-- Where the table is there already and its directory entry is not the user's, `vmm_map_page` gives
-- the user nothing, whatever the flags ask for.
pub vmm_map_page-no_user :
    (s : Vmm) (phys_addr virt_addr flags : ℕ)
    → IsPaged s
    → phys_addr < 2 ^ 32
    → virt_addr < 2 ^ 32
    → present (directory_entry s (page_directory_index virt_addr)) ≡ 1
    → user (directory_entry s (page_directory_index virt_addr)) ≡ 0
    → user_may (vmm_map_page s phys_addr virt_addr flags).0 virt_addr ≡ false
unfolding user_may
vmm_map_page-no_user s phys_addr virt_addr flags p hp hv here kernel =
    ground (arith, vmm_map_page-entry s phys_addr virt_addr flags p hp hv here)
