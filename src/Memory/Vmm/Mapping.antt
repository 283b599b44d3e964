-- ===== src/Memory/Vmm/Mapping.antt =====
-- `vmm_map_page`: one page of the address space changes.
use nedoos.Prelude.{
  ℕ, ◌*◌, ◌/◌, ◌%◌, ◌^◌, ◌<◌, ◌≡◌, ◌≢◌, refl, ◌⊎◌, inl, inr, bit_and, Option, some, if◌then◌else◌,
  ◌==◌, arith, ap, sym, ◌∙◌, ℕ_discrete, eq→==, ne→==,
}
use nedoos.Prelude.Bits.{bit_and_digit, bit_and_mask}
use nedoos.Memory.Pmm.{page_size, page_count}
use nedoos.Memory.Pmm.Alloc.{pmm_alloc_page_cases}
use nedoos.Memory.Pmm.Scan.{AllUsed}
use nedoos.Memory.Vmm.{
  Vmm, entry, present, fill, with_table, map_in, vmm_map_page, user_flag, page_directory_index,
  page_table_index,
}
use nedoos.Memory.Vmm.Field.{fill-Holds, page_table_index_lem}
use nedoos.Memory.Vmm.Space.{
  Page, directory_entry, table_of, space, view, view-absent, view-present, space-at, present-cases,
  IsPaged, IsPaged-memory,
}
use nedoos.Memory.Vmm.Table.{new_table-at, new_table-space, new_table-IsPaged}

-- The page that a call asks for.
abbrev pub requested : ℕ → ℕ → Page
requested phys_addr flags = record {
  to_frame = phys_addr / page_size;
  writable = flags % 2;
  for_user = flags / 2 % 2;
}

pub page_ext :
    (a b c a' b' c' : ℕ)
    → a ≡ a'
    → b ≡ b'
    → c ≡ c'
    → Path Page
        (record { to_frame = a; writable = b; for_user = c })
        (record { to_frame = a'; writable = b'; for_user = c' })
page_ext a b c a' b' c' p q r = rw p (rw q (rw r refl))

user_flag_lem : (flags : ℕ) → user_flag flags ≡ flags / 2 % 2
user_flag_lem flags =
    ground (arith, bit_and_digit flags 2, bit_and_mask 1 (flags / 2), bit_and_digit (flags / 2) 1)

view-filled :
    (d phys_addr flags w : ℕ)
    → phys_addr < 2 ^ 32
    → present d ≡ 1
    → view d (fill w (phys_addr / 2 ^ 12) (bit_and flags 1) (user_flag flags))
      ≡ some (requested phys_addr flags)
view-filled d phys_addr flags w small o =
    let t : ℕ = fill w (phys_addr / 2 ^ 12) (bit_and flags 1) (user_flag flags) in
    let f = fill-Holds w (phys_addr / 2 ^ 12) (bit_and flags 1) (user_flag flags) in
    view-present d t o f.is_present
    ∙ ap some (
        page_ext _ _ _ _ _ _ (omega (arith, f.has_frame))
          (omega (arith, f.has_rw, bit_and_mask 1 flags))
          (omega (arith, f.has_user, user_flag_lem flags)))

module _ (s : Vmm) (phys_addr virt_addr flags : ℕ) (p : IsPaged s) (hp : phys_addr < 2 ^ 32)
    (hv : virt_addr < 2 ^ 32)
    (here : present (directory_entry s (page_directory_index virt_addr)) ≡ 1) where
  -- The store is in a table, so that no directory entry changes.
  map_in-directory :
      (j : ℕ)
      → j < 1024
      → directory_entry (map_in s phys_addr virt_addr flags) j ≡ directory_entry s j
  unfolding map_in
  map_in-directory j q = ground (
    arith,
    page_table_index_lem virt_addr,
    p.no_directory (page_directory_index virt_addr) (omega arith) here,
    p.aligned,
  )

  target : ℕ
  target = entry (table_of s (page_directory_index virt_addr) * 2 ^ 12) (page_table_index virt_addr)

  map_in-target :
      (map_in s phys_addr virt_addr flags).memory target
      ≡ fill (s.memory target) (phys_addr / 2 ^ 12) (bit_and flags 1) (user_flag flags)
  unfolding map_in target
  map_in-target = rw (eq→== target target refl) refl

  map_in-others : (j : ℕ) → j ≢ target → (map_in s phys_addr virt_addr flags).memory j ≡ s.memory j
  unfolding map_in target
  map_in-others j n = rw (ne→== j _ n) refl

  -- The entry of another page is another word.
  no_target :
      (page : ℕ)
      → page < 2 ^ 20
      → page ≢ virt_addr / page_size
      → present (directory_entry s (page / 2 ^ 10)) ≡ 1
      → entry (table_of s (page / 2 ^ 10) * 2 ^ 12) (page % 2 ^ 10) ≢ target
  unfolding target
  no_target page q n o = elim (ℕ_discrete (page / 2 ^ 10) (page_directory_index virt_addr)) [
    | yes e ↦ rw e (omega (arith, page_table_index_lem virt_addr))
    | no d ↦ omega (
      arith,
      page_table_index_lem virt_addr,
      p.apart (page / 2 ^ 10) (page_directory_index virt_addr) (omega arith) (omega arith) d o here,
    )
  ]

  index_target :
      (page : ℕ)
      → page ≡ virt_addr / page_size
      → entry (table_of s (page_directory_index virt_addr) * 2 ^ 12) (page % 2 ^ 10) ≡ target
  unfolding target
  index_target page e = omega (arith, page_table_index_lem virt_addr)

  map_in-space :
      (page : ℕ)
      → page < 2 ^ 20
      → space (map_in s phys_addr virt_addr flags) page
        ≡ (if page == virt_addr / page_size then some (requested phys_addr flags) else space s page)
  map_in-space page q = elim (ℕ_discrete page (virt_addr / page_size)) [
    | yes e ↦ rw (eq→== _ _ e) (
        rw
          (space-at (map_in s phys_addr virt_addr flags) page (page_directory_index virt_addr)
            (omega arith))
          (rw (map_in-directory (page_directory_index virt_addr) (omega arith)) (
            ap (view (directory_entry s (page_directory_index virt_addr)))
              (ap (map_in s phys_addr virt_addr flags).memory (index_target page e) ∙ map_in-target)
            ∙ view-filled _ phys_addr flags _ hp here)))
    | no n ↦ rw (ne→== _ _ n) (
        rw (space-at (map_in s phys_addr virt_addr flags) page (page / 2 ^ 10) refl) (
          rw (space-at s page (page / 2 ^ 10) refl) (
            rw (map_in-directory (page / 2 ^ 10) (omega arith))
              (elim (present-cases (directory_entry s (page / 2 ^ 10))) [
                | inl z ↦ rw (view-absent _ _ z) (sym (view-absent _ _ z))
                | inr o ↦ rw (map_in-others _ (no_target page q n o)) refl
              ]))))
  ]

  map_in-IsPaged : IsPaged (map_in s phys_addr virt_addr flags)
  unfolding map_in
  map_in-IsPaged = IsPaged-memory s _ map_in-directory p

-- The table is there already, or there is a frame for it.
abbrev pub HasTable : Vmm → ℕ → Type 0
HasTable s virt_addr =
    (present (directory_entry s (page_directory_index virt_addr)) ≡ 1)
    ⊎ (¬ AllUsed s.pmm.memory_bitmap 0 page_count)

pub record Maps (s s' : Vmm) (phys_addr virt_addr flags : ℕ) : Type 0 where
  pub paged : IsPaged s'
  pub maps :
      (page : ℕ)
      → page < 2 ^ 20
      → space s' page
        ≡ (if page == virt_addr / page_size then some (requested phys_addr flags) else space s page)

with_table_cases :
    (s : Vmm) (i flags : ℕ)
    → IsPaged s
    → i < 1024
    → (present (directory_entry s i) ≡ 1) ⊎ (¬ AllUsed s.pmm.memory_bitmap 0 page_count)
    → IsPaged (with_table s i flags)
      × (present (directory_entry (with_table s i flags) i) ≡ 1)
      × ((page : ℕ) → page < 2 ^ 20 → space (with_table s i flags) page ≡ space s page)
unfolding with_table
with_table_cases s i flags p h room = elim (present-cases (directory_entry s i)) [
  | inr o ↦ rw o (p, o, λ page q. refl)
  | inl z ↦ elim (pmm_alloc_page_cases s.pmm p.valid) [
    | inl (k, g) ↦ rw z (
      new_table-IsPaged s i flags k p h z g,
      (new_table-at s i flags k g).is_present,
      new_table-space s i flags k p h z g,
    )
    | inr f ↦ elim room [ inl o ↦ absurd (omega arith) | inr r ↦ absurd (r f.no_room) ]
  ]
]

-- `vmm_map_page` maps the page of the virtual address to the frame of the physical one with the
-- rights asked for, and changes no other page of the address space, provided that the page's table
-- is there or that there is a free frame for it. The paging structures stay well formed.
pub vmm_map_page-Maps :
    (s : Vmm) (phys_addr virt_addr flags : ℕ)
    → IsPaged s
    → HasTable s virt_addr
    → phys_addr < 2 ^ 32
    → virt_addr < 2 ^ 32
    → Maps s (vmm_map_page s phys_addr virt_addr flags).0 phys_addr virt_addr flags
unfolding vmm_map_page
vmm_map_page-Maps s phys_addr virt_addr flags p room hp hv =
    let (p', here, same) =
      with_table_cases s (page_directory_index virt_addr) flags p (omega arith) room in
    let t : Vmm = with_table s (page_directory_index virt_addr) flags in
    record {
      paged = map_in-IsPaged t phys_addr virt_addr flags p' hp hv here;
      maps = λ page q.
          map_in-space t phys_addr virt_addr flags p' hp hv here page q
          ∙ ap
              (λ (o : Option Page).
                if page == virt_addr / page_size then some (requested phys_addr flags) else o)
              (same page q);
    }

-- A table that is there already stays as it is known to the directory.
pub vmm_map_page-entry :
    (s : Vmm) (phys_addr virt_addr flags : ℕ)
    → IsPaged s
    → phys_addr < 2 ^ 32
    → virt_addr < 2 ^ 32
    → present (directory_entry s (page_directory_index virt_addr)) ≡ 1
    → directory_entry (vmm_map_page s phys_addr virt_addr flags).0 (page_directory_index virt_addr)
      ≡ directory_entry s (page_directory_index virt_addr)
unfolding vmm_map_page with_table
vmm_map_page-entry s phys_addr virt_addr flags p hp hv here =
    rw here (map_in-directory s phys_addr virt_addr flags p hp hv here _ (omega arith))
