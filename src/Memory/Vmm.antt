-- ===== src/Memory/Vmm.antt =====
-- kernel/mm/vmm.c: the page directory and the page tables, in pages from the frame allocator.
-- The memory is a function from the index of a 32-bit word to the word; a structure of bit fields
-- is the word that holds it. Loading cr3 and cr0 is the state of the processor.
pub mod Field
pub mod Space
pub mod Table
pub mod Mapping
pub mod Entries
pub mod Identity
pub mod Calls
mod Tests
use nedoos.Prelude.{
  ℕ, ◌+◌, ◌*◌, ◌/◌, ◌%◌, ◌^◌, bit_and, bit_or, Bool, true, false, Array, update, for_up, u32,
  if◌then◌else◌, ◌==◌,
}
use nedoos.Libc.{memset}
use nedoos.Memory.Pmm.{Pmm, page_size, pmm_alloc_page}

-- `struct { ...; uint32_t f : width; ... }`, where `low` bits come before `f`
abbrev pub get_field : ℕ → ℕ → ℕ → ℕ
get_field low width w = w / 2 ^ low % 2 ^ width

abbrev pub set_field : ℕ → ℕ → ℕ → ℕ → ℕ
set_field low width w v =
    w / 2 ^ (low + width) * 2 ^ (low + width) + v % 2 ^ width * 2 ^ low + w % 2 ^ low

abbrev pub present : ℕ → ℕ
present w = get_field 0 1 w

abbrev pub rw_bit : ℕ → ℕ
rw_bit w = get_field 1 1 w

abbrev pub user : ℕ → ℕ
user w = get_field 2 1 w

abbrev pub frame : ℕ → ℕ
frame w = get_field 12 20 w

abbrev pub set_present : ℕ → ℕ → ℕ
set_present w v = set_field 0 1 w v

abbrev pub set_rw : ℕ → ℕ → ℕ
set_rw w v = set_field 1 1 w v

abbrev pub set_user : ℕ → ℕ → ℕ
set_user w v = set_field 2 1 w v

abbrev pub set_page_size : ℕ → ℕ → ℕ
set_page_size w v = set_field 7 1 w v

abbrev pub set_frame : ℕ → ℕ → ℕ
set_frame w v = set_field 12 20 w v

-- The four stores that fill an entry, one after the other.
abbrev pub fill : ℕ → ℕ → ℕ → ℕ → ℕ
fill w page rw_flag user_flag =
    set_user (set_rw (set_present (set_frame w page) 1) rw_flag) user_flag

abbrev pub page_directory_index : ℕ → ℕ
page_directory_index vaddr = vaddr / 2 ^ 22

abbrev pub page_table_index : ℕ → ℕ
page_table_index vaddr = bit_and (vaddr / 2 ^ 12) 0x3ff

pub record Vmm : Type 0 where
  pub pmm : Pmm
  pub memory : Array
  pub current_directory : ℕ

-- `&p[i]`, as the index of a word, for a pointer to 4-byte entries
abbrev pub entry : ℕ → ℕ → ℕ
entry p i = p / 4 + i

-- `memset(p, 0, PAGE_SIZE)`
pub clear_page : Array → ℕ → Array
clear_page m p = memset m (p / 4) 0 (page_size / 4)

pub identity_entries : Array → ℕ → Array
identity_entries m table =
    for_up 1024 0 (λ i (t : Array). update t (entry table i) (fill (t (entry table i)) i 1 0)) m

pub vmm_init : Vmm → Vmm
unfolding clear_page identity_entries
vmm_init s =
    let (p1, directory) = pmm_alloc_page s.pmm in
    let m1 = clear_page s.memory directory in
    let (p2, table) = pmm_alloc_page p1 in
    let m2 = identity_entries (clear_page m1 table) table in
    let e = entry directory 0 in
    record {
      pmm = p2;
      memory = update m2 e (set_page_size (fill (m2 e) (table / 2 ^ 12) 1 0) 0);
      current_directory = directory;
    }

-- `(flags & 2) ? 1 : 0`
abbrev pub user_flag : ℕ → ℕ
user_flag flags = if bit_and flags 2 == 0 then 0 else 1

pub new_table : Vmm → ℕ → ℕ → Vmm
unfolding clear_page
new_table s pd_idx flags =
    let (p, table) = pmm_alloc_page s.pmm in
    let m = clear_page s.memory table in
    let e = entry s.current_directory pd_idx in
    record s { pmm = p; memory = update m e (fill (m e) (table / 2 ^ 12) 1 (user_flag flags)) }

pub with_table : Vmm → ℕ → ℕ → Vmm
unfolding new_table
with_table s pd_idx flags =
    if present (s.memory (entry s.current_directory pd_idx)) == 0
    then new_table s pd_idx flags
    else s

pub map_in : Vmm → ℕ → ℕ → ℕ → Vmm
map_in s phys_addr virt_addr flags =
    let table =
      frame (s.memory (entry s.current_directory (page_directory_index virt_addr))) * 2 ^ 12 in
    let e = entry table (page_table_index virt_addr) in
    record s {
      memory =
          update s.memory e
            (fill (s.memory e) (phys_addr / 2 ^ 12) (bit_and flags 1) (user_flag flags));
    }

pub vmm_map_page : Vmm → ℕ → ℕ → ℕ → Vmm × ℕ
unfolding with_table map_in
vmm_map_page s phys_addr virt_addr flags = (
  map_in (with_table s (page_directory_index virt_addr) flags) phys_addr virt_addr flags,
  virt_addr,
)

-- The control registers, and `vmm_enable`, which loads them.
pub record Control : Type 0 where
  pub cr0 : ℕ
  pub cr3 : ℕ

pub vmm_enable : Vmm → Control → Control
vmm_enable s c = record { cr0 = bit_or c.cr0 0x80000000; cr3 = s.current_directory }
