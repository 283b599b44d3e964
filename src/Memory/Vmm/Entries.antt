-- ===== src/Memory/Vmm/Entries.antt =====
-- The entries that `vmm_init` stores.
use nedoos.Prelude.{
  ℕ, ◌+◌, ◌-◌, ◌*◌, ◌/◌, ◌<◌, ◌≡◌, refl, Array, ◌&&◌, ltb, leb, if◌then◌else◌, arith, ℕ_discrete,
  eq→==, update, for_up, for_up_inv,
}
use nedoos.Memory.Pmm.{page_size}
use nedoos.Memory.Vmm.{fill, set_page_size, identity_entries}
use nedoos.Memory.Vmm.Field.{Holds, fill-Holds}

-- A loop over `n` words that rewrites each by itself and its number.
module _ (f : ℕ → ℕ → ℕ) (base : ℕ) (m : Array) where
  rewrite_words :
      (n j : ℕ)
      → for_up n 0 (λ i (t : Array). update t (base + i) (f (t (base + i)) i)) m j
        ≡ (if leb base j && ltb j (base + n) then f (m j) (j - base) else m j)
  rewrite_words n j =
      for_up_inv
        (λ i (t : Array).
          (c : ℕ) → t c ≡ (if leb base c && ltb c (base + i) then f (m c) (c - base) else m c))
        _ n 0 n m step (omega arith) (λ c. ground arith) j
    where
      step :
          (i : ℕ) (t : Array)
          → i < n
          → ((c : ℕ) → t c ≡ (if leb base c && ltb c (base + i) then f (m c) (c - base) else m c))
          → (c : ℕ)
          → update t (base + i) (f (t (base + i)) i) c
            ≡ (if leb base c && ltb c (base + (i + 1)) then f (m c) (c - base) else m c)
      step i t h inv c = elim (ℕ_discrete c (base + i)) [
        | yes e ↦
            let here : t (base + i) ≡ m (base + i) = ground (arith, inv (base + i)) in
            let place : base + i - base ≡ i = omega arith in rw e (ground (arith, here, place))
        | no n ↦ ground (arith, inv c)
      ]

pub identity_entries-get :
    (m : Array) (k j : ℕ)
    → identity_entries m (k * page_size) j
      ≡ (if leb (k * 1024) j && ltb j (k * 1024 + 1024) then fill (m j) (j - k * 1024) 1 0 else m j)
unfolding identity_entries
identity_entries-get m k j = rw place (rewrite_words (λ w i. fill w i 1 0) (k * 1024) m 1024 j)
  where
    place : k * page_size / 4 ≡ k * 1024
    place = omega arith

pub store_at :
    (m : Array) (e j t k : ℕ)
    → e ≡ j
    → t ≡ k
    → update m e (set_page_size (fill (m e) t 1 0) 0) j ≡ set_page_size (fill (m j) k 1 0) 0
store_at m e j t k p q = rw p (rw q (rw (eq→== j j refl) refl))

pub first-Holds : (w k : ℕ) → Holds (set_page_size (fill w k 1 0) 0) k 1 0
first-Holds w k =
    let f = fill-Holds w k 1 0 in
    record {
      is_present = omega (arith, f.is_present);
      has_rw = omega (arith, f.has_rw);
      has_user = omega (arith, f.has_user);
      has_frame = omega (arith, f.has_frame);
    }
