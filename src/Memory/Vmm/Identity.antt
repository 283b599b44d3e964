-- ===== src/Memory/Vmm/Identity.antt =====
-- `vmm_init`: the first four megabytes are mapped to themselves.
use nedoos.Prelude.{
  ℕ, zero, suc, ◌+◌, ◌*◌, ◌/◌, ◌%◌, ◌^◌, ◌<◌, ◌≡◌, ◌≢◌, refl, inl, inr, true, false, Array, none,
  some, ◌&&◌, ltb, leb, if◌then◌else◌, arith, ap, sym, subst, ◌∙◌, dec_lt, lt→ltb, le→not-ltb,
}
use nedoos.Memory.Pmm.{page_size, page_count, pmm_alloc_page}
use nedoos.Memory.Pmm.Alloc.{used, IsValid, Grants, pmm_alloc_page_cases}
use nedoos.Memory.Pmm.Ledger.{Grants-keeps}
use nedoos.Memory.Pmm.Scan.{AllUsed}
use nedoos.Memory.Vmm.{
  Vmm, entry, present, fill, set_page_size, clear_page, identity_entries, vmm_init,
}
use nedoos.Memory.Vmm.Field.{Holds, fill-Holds}
use nedoos.Memory.Vmm.Space.{
  directory_entry, table_of, space, translate, translate-of, address_in, view, view-absent,
  view-present, space-at, IsPaged,
}
use nedoos.Memory.Vmm.Mapping.{page_ext}
use nedoos.Memory.Vmm.Table.{clear_page-get}
use nedoos.Memory.Vmm.Entries.{identity_entries-get, store_at, first-Holds}

module _ (s : Vmm) (k1 k2 : ℕ) (g1 : Grants s.pmm (pmm_alloc_page s.pmm) k1)
    (g2 : Grants (pmm_alloc_page s.pmm).0 (pmm_alloc_page (pmm_alloc_page s.pmm).0) k2) where
  two_frames : k1 ≢ k2
  two_frames e =
      let taken : used (pmm_alloc_page s.pmm).0 k1 ≡ true = ground (arith, g1.marks k1) in
      let free : used (pmm_alloc_page s.pmm).0 k1 ≡ false = rw e g2.was_free in cc

  init-pmm : (vmm_init s).pmm ≡ (pmm_alloc_page (pmm_alloc_page s.pmm).0).0
  unfolding vmm_init
  init-pmm = refl

  init-directory : (vmm_init s).current_directory ≡ k1 * page_size
  unfolding vmm_init
  init-directory = g1.address

  -- The words before the last store.
  filled : Array
  filled =
      identity_entries (clear_page (clear_page s.memory (k1 * page_size)) (k2 * page_size))
        (k2 * page_size)

  filled-directory : (i : ℕ) → i < 1024 → filled (k1 * 1024 + i) ≡ 0
  unfolding filled
  filled-directory i h = rw (outside _) (
      ground (
        arith,
        two_frames,
        clear_page-get (clear_page s.memory (k1 * page_size)) k2 (k1 * 1024 + i),
        clear_page-get s.memory k1 (k1 * 1024 + i),
      ))
    where
      outside :
          (m : Array) → identity_entries m (k2 * page_size) (k1 * 1024 + i) ≡ m (k1 * 1024 + i)
      outside m =
          let apart : (leb (k2 * 1024) (k1 * 1024 + i) && ltb (k1 * 1024 + i) (k2 * 1024 + 1024))
              ≡ false =
            ground (arith, two_frames) in
          identity_entries-get m k2 (k1 * 1024 + i) ∙ rw apart refl

  filled-table : (i : ℕ) → i < 1024 → filled (k2 * 1024 + i) ≡ fill 0 i 1 0
  unfolding filled
  filled-table i h =
      identity_entries-get _ k2 (k2 * 1024 + i)
      ∙ rw within (rw zeroed (ap (λ (n : ℕ). fill 0 n 1 0) (omega arith)))
    where
      within : (leb (k2 * 1024) (k2 * 1024 + i) && ltb (k2 * 1024 + i) (k2 * 1024 + 1024)) ≡ true
      within = ground arith

      zeroed :
          clear_page (clear_page s.memory (k1 * page_size)) (k2 * page_size) (k2 * 1024 + i) ≡ 0
      zeroed = clear_page-get _ k2 (k2 * 1024 + i) ∙ rw within refl

  init-others : (j : ℕ) → j ≢ k1 * 1024 → (vmm_init s).memory j ≡ filled j
  unfolding vmm_init filled
  init-others j n = rw g1.address (rw g2.address (ground arith))

  init-first : (vmm_init s).memory (k1 * 1024) ≡ set_page_size (fill (filled (k1 * 1024)) k2 1 0) 0
  unfolding vmm_init filled
  init-first = rw g1.address (
      rw g2.address (
        store_at filled (entry (k1 * page_size) 0) (k1 * 1024) (k2 * page_size / 2 ^ 12) k2
          (omega arith) (omega arith)))

  directory_at :
      (i j : ℕ) → j ≡ k1 * 1024 + i → directory_entry (vmm_init s) i ≡ (vmm_init s).memory j
  directory_at i j e = ap (vmm_init s).memory (omega (arith, init-directory))

  first_entry : Holds (directory_entry (vmm_init s) 0) k2 1 0
  first_entry =
      subst (λ (w : ℕ). Holds w k2 1 0)
        (sym (directory_at 0 (k1 * 1024) (omega arith) ∙ init-first))
        (first-Holds (filled (k1 * 1024)) k2)

  absent_entry : (i : ℕ) → i < 1024 → 0 < i → directory_entry (vmm_init s) i ≡ 0
  absent_entry i h n =
      directory_at i (k1 * 1024 + i) refl
      ∙ init-others (k1 * 1024 + i) (omega arith)
      ∙ filled-directory i h

  first_table : table_of (vmm_init s) 0 ≡ k2
  first_table = omega (arith, first_entry.has_frame, g2.in_range)

  table_word :
      (i : ℕ)
      → i < 1024
      → (vmm_init s).memory (entry (table_of (vmm_init s) 0 * 2 ^ 12) i) ≡ fill 0 i 1 0
  table_word i h =
      rw place (init-others (k2 * 1024 + i) (omega (arith, two_frames)) ∙ filled-table i h)
    where
      place : entry (table_of (vmm_init s) 0 * 2 ^ 12) i ≡ k2 * 1024 + i
      place = omega (arith, first_table)

  init-space :
      (page : ℕ)
      → page < 2 ^ 20
      → space (vmm_init s) page ≡ (
          if ltb page 1024
          then some (record { to_frame = page; writable = 1; for_user = 0 })
          else none)
  init-space page q = elim (dec_lt page 1024) [
    | yes h ↦ rw (lt→ltb page 1024 h) (
        rw (space-at (vmm_init s) page 0 (omega arith))
          (rw (table_word (page % 2 ^ 10) (omega arith)) (low page h)))
    | no h ↦ rw (le→not-ltb page 1024 (omega arith)) (
        rw (space-at (vmm_init s) page (page / 2 ^ 10) refl)
          (view-absent _ _ (ap present (absent_entry (page / 2 ^ 10) (omega arith) (omega arith)))))
  ]
    where
      low :
          (page : ℕ)
          → page < 1024
          → view (directory_entry (vmm_init s) 0) (fill 0 (page % 2 ^ 10) 1 0)
            ≡ some (record { to_frame = page; writable = 1; for_user = 0 })
      low page h =
          let f = fill-Holds 0 (page % 2 ^ 10) 1 0 in
          view-present _ _ first_entry.is_present f.is_present
          ∙ ap some (page_ext _ _ _ _ _ _ (omega (arith, f.has_frame)) f.has_rw f.has_user)

  only_first : (i : ℕ) → i < 1024 → present (directory_entry (vmm_init s) i) ≡ 1 → i ≡ 0
  only_first zero h o = refl
  only_first (suc i) h o = absurd (omega (arith, absent_entry (suc i) h))

  init-IsPaged : IsPaged (vmm_init s)
  init-IsPaged = record {
    valid = rw init-pmm g2.valid;
    aligned = rw init-directory (omega arith);
    in_use = rw init-pmm (rw init-directory (rw frame_of (Grants-keeps _ _ k2 g2 k1 taken1)));
    in_range = rw init-directory (rw frame_of g1.in_range);
    table_in_use = λ i q o. rw (only_first i q o) (rw first_table (rw init-pmm taken2));
    no_directory = λ i q o.
        rw (only_first i q o)
          (rw first_table (rw init-directory (rw frame_of (λ e. two_frames (sym e)))));
    apart = λ a b qa qb n oa ob. absurd (n (only_first a qa oa ∙ sym (only_first b qb ob)));
  }
    where
      frame_of : k1 * page_size / page_size ≡ k1
      frame_of = omega arith

      taken1 : used (pmm_alloc_page s.pmm).0 k1 ≡ true
      taken1 = ground (arith, g1.marks k1)

      taken2 : used (pmm_alloc_page (pmm_alloc_page s.pmm).0).0 k2 ≡ true
      taken2 = ground (arith, g2.marks k2)

identity_address :
    (v : ℕ)
    → address_in
        (if ltb (v / page_size) 1024
          then some (record { to_frame = v / page_size; writable = 1; for_user = 0 })
          else none)
        (v % page_size)
      ≡ (if ltb v (2 ^ 22) then some v else none)
identity_address v = elim (dec_lt v (2 ^ 22)) [
  | yes h ↦
      rw (lt→ltb (v / page_size) 1024 (omega arith))
        (rw (lt→ltb v (2 ^ 22) h) (ap some (omega arith)))
  | no h ↦
      rw (le→not-ltb (v / page_size) 1024 (omega arith))
        (rw (le→not-ltb v (2 ^ 22) (omega arith)) refl)
]

-- After `vmm_init`, which needs two free frames, the addresses below four megabytes stand for
-- themselves, no other is mapped, and the paging structures are well formed.
pub vmm_init-translate :
    (s : Vmm) (v : ℕ)
    → IsValid s.pmm
    → ¬ AllUsed s.pmm.memory_bitmap 0 page_count
    → ¬ AllUsed (pmm_alloc_page s.pmm).0.memory_bitmap 0 page_count
    → v < 2 ^ 32
    → IsPaged (vmm_init s) × (translate (vmm_init s) v ≡ (if ltb v (2 ^ 22) then some v else none))
vmm_init-translate s v valid room1 room2 h = elim (pmm_alloc_page_cases s.pmm valid) [
  | inl (k1, g1) ↦ elim (pmm_alloc_page_cases (pmm_alloc_page s.pmm).0 g1.valid) [
    | inl (k2, g2) ↦ (
      init-IsPaged s k1 k2 g1 g2,
      translate-of _ v _ (init-space s k1 k2 g1 g2 (v / page_size) (omega arith))
          ∙ identity_address v,
    )
    | inr f ↦ absurd (room2 f.no_room)
  ]
  | inr f ↦ absurd (room1 f.no_room)
]
