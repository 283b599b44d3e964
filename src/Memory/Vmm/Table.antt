-- ===== src/Memory/Vmm/Table.antt =====
-- A page table that is made for a directory entry: it maps nothing, and stands in a frame of its own.
use nedoos.Prelude.{
  ℕ, ◌+◌, ◌*◌, ◌/◌, ◌%◌, ◌^◌, ◌<◌, ◌≡◌, ◌≢◌, refl, ◌⊎◌, inl, inr, true, ◌&&◌, ltb, leb,
  if◌then◌else◌, arith, ap, sym, ◌∙◌, ℕ_discrete, eq→==, ne→==,
}
use nedoos.Libc.Memset.{memset-get}
use nedoos.Memory.Pmm.{page_size, pmm_alloc_page}
use nedoos.Memory.Pmm.Alloc.{used, Grants}
use nedoos.Memory.Pmm.Ledger.{Grants-keeps}
use nedoos.Memory.Vmm.{Vmm, entry, present, frame, clear_page, new_table, user_flag}
use nedoos.Memory.Vmm.Field.{Holds, fill-Holds}
use nedoos.Memory.Vmm.Space.{
  directory_entry, table_of, space, view-absent, view-empty, space-at, present-cases, IsPaged,
}

pub clear_page-get :
    (m : ℕ → ℕ) (k j : ℕ)
    → clear_page m (k * page_size) j
      ≡ (if leb (k * 1024) j && ltb j (k * 1024 + 1024) then 0 else m j)
unfolding clear_page
clear_page-get m k j = ground (arith, memset-get m (k * page_size / 4) 0 1024 j)

new_table-directory :
    (s : Vmm) (i flags : ℕ) → (new_table s i flags).current_directory ≡ s.current_directory
unfolding new_table
new_table-directory s i flags = refl

new_table-pmm : (s : Vmm) (i flags : ℕ) → (new_table s i flags).pmm ≡ (pmm_alloc_page s.pmm).0
unfolding new_table
new_table-pmm s i flags = refl

-- The new directory entry, and the other words after a table was made.
pub new_table-at :
    (s : Vmm) (i flags k : ℕ)
    → Grants s.pmm (pmm_alloc_page s.pmm) k
    → Holds (directory_entry (new_table s i flags) i) k 1 (user_flag flags)
unfolding new_table
new_table-at s i flags k g =
    let e : (pmm_alloc_page s.pmm).1 / 2 ^ 12 ≡ k = omega (arith, g.address) in
    rw (eq→== (entry s.current_directory i) _ refl) (rw e (fill-Holds _ k 1 (user_flag flags)))

new_table-word :
    (s : Vmm) (i flags k j : ℕ)
    → Grants s.pmm (pmm_alloc_page s.pmm) k
    → j ≢ s.current_directory / 4 + i
    → (new_table s i flags).memory j
      ≡ (if leb (k * 1024) j && ltb j (k * 1024 + 1024) then 0 else s.memory j)
unfolding new_table
new_table-word s i flags k j g n = rw (ne→== j _ n) (rw g.address (clear_page-get s.memory k j))

module _ (s : Vmm) (i flags k : ℕ) (p : IsPaged s) (h : i < 1024)
    (absent : present (directory_entry s i) ≡ 0) (g : Grants s.pmm (pmm_alloc_page s.pmm) k) where
  -- The frame that was granted is neither the directory's nor a table's.
  not_directory : k ≢ s.current_directory / page_size
  not_directory e = let both : used s.pmm k ≡ true = rw e p.in_use in let f = g.was_free in cc

  not_table : (j : ℕ) → j < 1024 → present (directory_entry s j) ≡ 1 → k ≢ table_of s j
  not_table j q r e =
      let both : used s.pmm k ≡ true = rw e (p.table_in_use j q r) in let f = g.was_free in cc

  other_entries :
      (j : ℕ) → j < 1024 → i ≢ j → directory_entry (new_table s i flags) j ≡ directory_entry s j
  other_entries j q n = rw (new_table-directory s i flags) (
      ground (
        arith,
        new_table-word s i flags k (entry s.current_directory j) g,
        not_directory,
        p.aligned,
      ))

  fresh_entries :
      (j : ℕ)
      → j < 1024
      → (new_table s i flags).memory (entry (table_of (new_table s i flags) i * 2 ^ 12) j) ≡ 0
  fresh_entries j q =
      rw at_k
        (ground (arith, new_table-word s i flags k (k * 1024 + j) g, not_directory, p.aligned))
    where
      at_k : entry (table_of (new_table s i flags) i * 2 ^ 12) j ≡ k * 1024 + j
      at_k = omega (arith, (new_table-at s i flags k g).has_frame, g.in_range)

  old_tables :
      (a j : ℕ)
      → a < 1024
      → present (directory_entry s a) ≡ 1
      → j < 1024
      → (new_table s i flags).memory (entry (table_of s a * 2 ^ 12) j)
        ≡ s.memory (entry (table_of s a * 2 ^ 12) j)
  old_tables a j q r b = ground (
    arith,
    new_table-word s i flags k (entry (table_of s a * 2 ^ 12) j) g,
    not_table a q r,
    p.no_directory a q r,
    p.aligned,
  )

  -- A new table maps nothing.
  pub new_table-space : (page : ℕ) → page < 2 ^ 20 → space (new_table s i flags) page ≡ space s page
  new_table-space page q = elim (ℕ_discrete i (page / 2 ^ 10)) [
    | yes e ↦ rw (space-at (new_table s i flags) page i e) (
        rw (fresh_entries (page % 2 ^ 10) (omega arith)) (
          rw (space-at s page i e) (
            rw
              (view-absent (directory_entry s i)
                (s.memory (entry (table_of s i * 2 ^ 12) (page % 2 ^ 10))) absent)
              (view-empty (directory_entry (new_table s i flags) i) 0 refl))))
    | no n ↦ rw (space-at (new_table s i flags) page (page / 2 ^ 10) refl) (
        rw (space-at s page (page / 2 ^ 10) refl) (
          rw (other_entries (page / 2 ^ 10) (omega arith) n)
            (elim (present-cases (directory_entry s (page / 2 ^ 10))) [
              | inl z ↦ rw (view-absent _ _ z) (sym (view-absent _ _ z))
              | inr o ↦
                  rw (old_tables (page / 2 ^ 10) (page % 2 ^ 10) (omega arith) o (omega arith)) refl
            ])))
  ]

  -- A table of the new directory is the new one or an old one.
  tables :
      (j : ℕ)
      → j < 1024
      → present (directory_entry (new_table s i flags) j) ≡ 1
      → ((i ≡ j) × (table_of (new_table s i flags) j ≡ k))
        ⊎ ((i ≢ j)
            × (present (directory_entry s j) ≡ 1)
            × (table_of (new_table s i flags) j ≡ table_of s j))
  tables j q o = elim (ℕ_discrete i j) [
    | yes e ↦ inl (e, rw (← e) (omega (arith, (new_table-at s i flags k g).has_frame, g.in_range)))
    | no n ↦ inr (n, rw (← other_entries j q n) o, ap frame (other_entries j q n))
  ]

  pub new_table-IsPaged : IsPaged (new_table s i flags)
  unfolding new_table
  new_table-IsPaged = record {
    valid = rw (new_table-pmm s i flags) g.valid;
    aligned = rw (new_table-directory s i flags) p.aligned;
    in_use = rw (new_table-directory s i flags) (still _ p.in_use);
    in_range = rw (new_table-directory s i flags) p.in_range;
    table_in_use = λ j q o. elim (tables j q o) [
      | inl (e, f) ↦ rw f (rw (new_table-pmm s i flags) taken)
      | inr (n, o', f) ↦ rw f (still _ (p.table_in_use j q o'))
    ];
    no_directory = λ j q o. rw (new_table-directory s i flags) (elim (tables j q o) [
      | inl (e, f) ↦ rw f not_directory
      | inr (n, o', f) ↦ rw f (p.no_directory j q o')
    ]);
    apart = λ a b qa qb n oa ob. elim (tables a qa oa) [
      | inl (e, f) ↦ elim (tables b qb ob) [
        | inl (e', f') ↦ absurd (n (sym e ∙ e'))
        | inr (n', o', f') ↦ rw f (rw f' (not_table b qb o'))
      ]
      | inr (n', o', f) ↦ elim (tables b qb ob) [
        | inl (e', f') ↦ rw f (rw f' (λ e. not_table a qa o' (sym e)))
        | inr (n'', o'', f') ↦ rw f (rw f' (p.apart a b qa qb n o' o''))
      ]
    ];
  }
    where
      still : (c : ℕ) → used s.pmm c ≡ true → used (new_table s i flags).pmm c ≡ true
      still c t = rw (new_table-pmm s i flags) (Grants-keeps s.pmm (pmm_alloc_page s.pmm) k g c t)

      taken : used (pmm_alloc_page s.pmm).0 k ≡ true
      taken = ground (arith, g.marks k)
