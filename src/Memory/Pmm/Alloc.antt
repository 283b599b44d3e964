-- ===== src/Memory/Pmm/Alloc.antt =====
-- What `pmm_alloc_page` and `pmm_free_page` do to the set of frames in use.
use nedoos.Prelude.{
  ℕ, ◌+◌, ◌-◌, ◌*◌, ◌/◌, ◌≤◌, ◌<◌, ◌≡◌, refl, ◌⊎◌, inl, inr, Bool, true, false, Option, none, some,
  IsBytes, ltb, ◌==◌, if◌then◌else◌, arith, Bool-cases, ap, dec_lt,
}
use nedoos.Memory.Pmm.{
  Pmm, page_size, page_count, scan, grant, first_pass, second_pass, null, pmm_alloc_page,
  pmm_free_page, bitmap_test,
}
use nedoos.Memory.Pmm.Bitmap.{
  bitmap_test-set, bitmap_test-clear, bitmap_set-IsBytes, bitmap_clear-IsBytes,
}
use nedoos.Memory.Pmm.Scan.{AllUsed, scan-Found, scan-none}

abbrev pub used : Pmm → ℕ → Bool
used s c = bitmap_test s.memory_bitmap c

pub record IsValid (s : Pmm) : Type 0 where
  pub bytes : IsBytes s.memory_bitmap
  pub cursor : s.last_allocated ≤ page_count

-- The frame `i` is the first free one at or above the cursor or, when there is none, the first of
-- all.
abbrev pub IsNext : Pmm → ℕ → Type 0
IsNext s i =
    ((s.last_allocated ≤ i) × AllUsed s.memory_bitmap s.last_allocated i)
    ⊎ ((i < s.last_allocated)
        × AllUsed s.memory_bitmap s.last_allocated page_count
        × AllUsed s.memory_bitmap 0 i)

pub record Grants (s : Pmm) (r : Pmm × ℕ) (i : ℕ) : Type 0 where
  pub in_range : i < page_count
  pub was_free : used s i ≡ false
  pub next : IsNext s i
  pub address : r.1 ≡ i * page_size
  pub cursor : r.0.last_allocated ≡ i + 1
  pub marks : (c : ℕ) → used r.0 c ≡ (if c == i then true else used s c)
  pub valid : IsValid r.0

pub record IsFull (s : Pmm) (r : Pmm × ℕ) : Type 0 where
  pub no_room : AllUsed s.memory_bitmap 0 page_count
  pub unchanged : r ≡ (s, null)

grant-Grants :
    (s : Pmm) (i : ℕ)
    → IsValid s
    → i < page_count
    → used s i ≡ false
    → IsNext s i
    → Grants s (grant s i) i
unfolding grant
grant-Grants s i v h f n = record {
  in_range = h;
  was_free = f;
  next = n;
  address = omega arith;
  cursor = refl;
  marks = λ c. bitmap_test-set s.memory_bitmap i c v.bytes;
  valid = record { bytes = bitmap_set-IsBytes s.memory_bitmap i v.bytes; cursor = omega arith };
}

abbrev pub Outcome : Pmm → Pmm × ℕ → Type 0
Outcome s r = ((i : ℕ) × Grants s r i) ⊎ IsFull s r

-- The second pass stops below the cursor.
second_pass-Outcome :
    (s : Pmm)
    → IsValid s
    → AllUsed s.memory_bitmap s.last_allocated page_count
    → (o : Option ℕ) → scan s.last_allocated 0 s.memory_bitmap ≡ o
    → Outcome s (second_pass s o)
unfolding second_pass
second_pass-Outcome s v above (some i) e =
    let f = scan-Found s.last_allocated 0 s.last_allocated i _ (omega arith) e in
    inl (
      i,
      grant-Grants s i v (omega (arith, f.before, v.cursor)) f.clear
          (inr (f.before, above, f.least)),
    )
second_pass-Outcome s v above none e = inr (record {
  no_room = λ c p q. elim (dec_lt c s.last_allocated) [
    | yes h ↦ scan-none s.last_allocated 0 s.last_allocated _ (omega arith) e c p h
    | no h ↦ above c (omega arith) q
  ];
  unchanged = refl;
})

first_pass-Outcome :
    (s : Pmm)
    → IsValid s
    → (o : Option ℕ) → scan (page_count - s.last_allocated) s.last_allocated s.memory_bitmap ≡ o
    → Outcome s (first_pass s o)
unfolding first_pass
first_pass-Outcome s v (some i) e =
    let f = scan-Found _ s.last_allocated page_count i _ (omega (arith, v.cursor)) e in
    inl (i, grant-Grants s i v f.before f.clear (inl (f.from, f.least)))
first_pass-Outcome s v none e =
    second_pass-Outcome s v (scan-none _ _ page_count _ (omega (arith, v.cursor)) e) _ refl

-- `pmm_alloc_page` grants the next free frame: its address is returned, its bit and the cursor are
-- set, and no other bit changes. It returns null, and changes nothing, only if no frame is free.
pub pmm_alloc_page_cases :
    (s : Pmm) → IsValid s → ((i : ℕ) × Grants s (pmm_alloc_page s) i) ⊎ IsFull s (pmm_alloc_page s)
unfolding pmm_alloc_page
pmm_alloc_page_cases s v = first_pass-Outcome s v _ refl

-- `pmm_free_page` clears the bit of the frame that holds the address, if there is one.
pub used-free :
    (s : Pmm) (addr c : ℕ)
    → IsValid s
    → c < page_count
    → used (pmm_free_page s addr) c ≡ (if c == addr / page_size then false else used s c)
unfolding pmm_free_page
used-free s addr c v h =
    ground (arith, bitmap_test-clear s.memory_bitmap (addr / page_size) c v.bytes)

pub free-IsValid : (s : Pmm) (addr : ℕ) → IsValid s → IsValid (pmm_free_page s addr)
unfolding pmm_free_page
free-IsValid s addr v = elim (Bool-cases (ltb (addr / page_size) page_count)) [
  | inl h ↦ rw h (record {
    bytes = bitmap_clear-IsBytes s.memory_bitmap (addr / page_size) v.bytes;
    cursor = v.cursor;
  })
  | inr h ↦ rw h v
]

pub alloc-IsValid : (s : Pmm) → IsValid s → IsValid (pmm_alloc_page s).0
alloc-IsValid s v = elim (pmm_alloc_page_cases s v) [
  | inl (i, g) ↦ g.valid
  | inr f ↦ rw f.unchanged v
]

-- Freeing what was just granted restores the set of frames in use.
pub used-free_alloc :
    (s : Pmm) (c : ℕ)
    → IsValid s
    → c < page_count
    → ¬ AllUsed s.memory_bitmap 0 page_count
    → used (pmm_free_page (pmm_alloc_page s).0 (pmm_alloc_page s).1) c ≡ used s c
used-free_alloc s c v h room = elim (pmm_alloc_page_cases s v) [
  | inl (i, g) ↦ ground (
    arith,
    used-free (pmm_alloc_page s).0 (pmm_alloc_page s).1 c g.valid h,
    g.marks c,
    g.address,
    g.was_free,
    ap (used s) (same_frame i g.address),
  )
  | inr f ↦ absurd (room f.no_room)
]
  where
    same_frame :
        (i : ℕ) → (pmm_alloc_page s).1 ≡ i * page_size → (pmm_alloc_page s).1 / page_size ≡ i
    same_frame i e = omega arith
