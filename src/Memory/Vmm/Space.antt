-- ===== src/Memory/Vmm/Space.antt =====
-- The address space that the directory and its tables describe, and what must hold of them.
use nedoos.Prelude.{
  ℕ, ◌+◌, ◌*◌, ◌/◌, ◌%◌, ◌^◌, ◌<◌, ◌≡◌, ◌≢◌, true, Array, Option, none, some, if◌then◌else◌, ◌==◌,
  arith, refl, ◌⊎◌, inl, inr, ℕ_discrete,
}
use nedoos.Memory.Pmm.{page_size, page_count}
use nedoos.Memory.Pmm.Alloc.{used, IsValid}
use nedoos.Memory.Vmm.{Vmm, entry, present, rw_bit, user, frame}

-- A frame with the bits that say whether it may be written, and whether the user may use it.
pub record Page : Type 0 where
  pub to_frame : ℕ
  pub writable : ℕ
  pub for_user : ℕ

abbrev pub directory_entry : Vmm → ℕ → ℕ
directory_entry s i = s.memory (entry s.current_directory i)

abbrev pub table_of : Vmm → ℕ → ℕ
table_of s i = frame (directory_entry s i)

abbrev pub table_entry : Vmm → ℕ → ℕ
table_entry s page = s.memory (entry (table_of s (page / 2 ^ 10) * 2 ^ 12) (page % 2 ^ 10))

abbrev pub entry_page : ℕ → Option Page
entry_page w =
    if present w == 0
    then none
    else some (record { to_frame = frame w; writable = rw_bit w; for_user = user w })

-- What a directory entry and a table entry say together.
abbrev pub view : ℕ → ℕ → Option Page
view d t = if present d == 0 then none else entry_page t

-- What the page of that number is mapped to.
unfoldable pub space : Vmm → ℕ → Option Page
space s page = view (directory_entry s (page / 2 ^ 10)) (table_entry s page)

-- The address in that page.
abbrev pub address_in : Option Page → ℕ → Option ℕ
address_in none offset = none
address_in (some p) offset = some (p.to_frame * page_size + offset)

-- The processor's reading of an address.
pub translate : Vmm → ℕ → Option ℕ
unfolding space
translate s v = address_in (space s (v / page_size)) (v % page_size)

pub translate-of :
    (s : Vmm) (v : ℕ) (o : Option Page)
    → space s (v / page_size) ≡ o
    → translate s v ≡ address_in o (v % page_size)
unfolding translate
translate-of s v o e = rw e refl

-- The directory and the tables stand in frames in use, in different ones.
pub record IsPaged (s : Vmm) : Type 0 where
  pub valid : IsValid s.pmm
  pub aligned : s.current_directory % page_size ≡ 0
  pub in_use : used s.pmm (s.current_directory / page_size) ≡ true
  pub in_range : s.current_directory / page_size < page_count
  pub table_in_use :
      (i : ℕ) → i < 1024 → present (directory_entry s i) ≡ 1 → used s.pmm (table_of s i) ≡ true
  pub no_directory :
      (i : ℕ)
      → i < 1024
      → present (directory_entry s i) ≡ 1
      → table_of s i ≢ s.current_directory / page_size
  pub apart :
      (i j : ℕ)
      → i < 1024
      → j < 1024
      → i ≢ j
      → present (directory_entry s i) ≡ 1
      → present (directory_entry s j) ≡ 1
      → table_of s i ≢ table_of s j

pub view-absent : (d t : ℕ) → present d ≡ 0 → view d t ≡ none
view-absent d t h = ground arith

pub view-empty : (d t : ℕ) → present t ≡ 0 → view d t ≡ none
view-empty d t h = ground arith

-- An entry below the page's table, for an index that is the page's.
pub space-at :
    (s : Vmm) (page i : ℕ)
    → i ≡ page / 2 ^ 10
    → space s page
      ≡ view (directory_entry s i) (s.memory (entry (table_of s i * 2 ^ 12) (page % 2 ^ 10)))
unfolding space
space-at s page i e = rw e refl

pub present-cases : (w : ℕ) → (present w ≡ 0) ⊎ (present w ≡ 1)
present-cases w = elim (ℕ_discrete (present w) 0) [ yes e ↦ inl e | no n ↦ inr (omega arith) ]

pub view-present :
    (d t : ℕ)
    → present d ≡ 1
    → present t ≡ 1
    → view d t ≡ some (record { to_frame = frame t; writable = rw_bit t; for_user = user t })
view-present d t hd ht = rw hd (rw ht refl)

-- Memory outside the directory does not matter.
pub IsPaged-memory :
    (s : Vmm) (m : Array)
    → ((j : ℕ)
        → j < 1024
        → m (entry s.current_directory j) ≡ s.memory (entry s.current_directory j))
    → IsPaged s
    → IsPaged (record s { memory = m })
IsPaged-memory s m same p = record {
  valid = p.valid;
  aligned = p.aligned;
  in_use = p.in_use;
  in_range = p.in_range;
  table_in_use = λ j q o. rw (same j q) (p.table_in_use j q (rw (← same j q) o));
  no_directory = λ j q o. rw (same j q) (p.no_directory j q (rw (← same j q) o));
  apart = λ a b qa qb n oa ob.
      rw (same a qa)
        (rw (same b qb) (p.apart a b qa qb n (rw (← same a qa) oa) (rw (← same b qb) ob)));
}
