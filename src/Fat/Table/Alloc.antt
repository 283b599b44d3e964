-- ===== src/Fat/Table/Alloc.antt =====
-- `fat_alloc_cluster`: which cluster it takes, and when it reads past its buffer.
use nedoos.Prelude.{
  ℕ, zero, suc, ◌+◌, ◌/◌, ◌≤◌, ◌<◌, ◌≡◌, ◌≢◌, refl, sym, ◌∙◌, ap, Option, none, some, ◌>>=◌, ◌==◌,
  if◌then◌else◌, arith, eq→==, ne→==, ℕ_discrete,
}
use nedoos.Drivers.Disk.{Disk}
use nedoos.Fat.Volume.{Volume}
use nedoos.Fat.Table.{fat_offset, fat_sec, fat_set_next_cluster, alloc_from, fat_alloc_cluster}
use nedoos.Fat.Table.Entry.{
  Straddles, SameDisk, IsFat12, entry, fat_get_next_cluster_lem, fat_get_next_cluster_straddling,
}
use nedoos.Fat.Table.Update.{fat_set_next_cluster_lem}

-- No cluster from `lo` up to but without `hi` is free.
abbrev pub AllTaken : {W : Type 0} → Disk W → Volume → W → ℕ → ℕ → Type 0
AllTaken d v w lo hi = (j : ℕ) → lo ≤ j → j < hi → entry d v w j ≢ 0

-- Of the clusters that are looked at, only 341 has its entry across two sectors.
only_341 : (c : ℕ) → c < 341 → ¬ Straddles c
only_341 c h = λ s. omega arith

module _ {W : Type 0} (d : Disk W) (v : Volume) where
  -- What a call that takes the cluster `i` returns and leaves behind.
  pub record Takes (w : W) (i : ℕ) (r : Option (ℕ × W)) : Type 0 where
    pub after : W
    pub returns : r ≡ some (i, after)
    pub entries : (e : ℕ) → entry d v after e ≡ (if e == i then 0xff8 else entry d v w e)
    pub others : (n : ℕ) → n ≢ fat_sec d v i → d.sector after n ≡ d.sector w n

module _ {W : Type 0} (d : Disk W) (v : Volume) (f : IsFat12 v) where
  entry-SameDisk : (w w' : W) (c : ℕ) → SameDisk d w w' → entry d v w' c ≡ entry d v w c
  entry-SameDisk w w' c same =
      rw (same (v.fat_sector + fat_offset c / 512), same (v.fat_sector + (fat_offset c + 1) / 512))
        refl

  AllTaken-SameDisk :
      (w w' : W) (lo hi : ℕ) → SameDisk d w w' → AllTaken d v w lo hi → AllTaken d v w' lo hi
  AllTaken-SameDisk w w' lo hi same t j p q e = t j p q (sym (entry-SameDisk w w' j same) ∙ e)

  take_here :
      (i : ℕ) (w w' : W)
      → i < 341
      → SameDisk d w w'
      → Takes d v w i (fat_set_next_cluster d v i 0xff8 w' >>= λ w''. some (i, w''))
  take_here i w w' h same =
      let r =
        fat_set_next_cluster_lem d v f i 0xff8 w' (omega arith) (only_341 i h) (omega arith) in
      record {
        after = r.0;
        returns = rw r.1 refl;
        entries = λ e. r.2 e ∙ rw (entry-SameDisk w w' e same) refl;
        others = λ n ne. r.3 n ne ∙ same n;
      }

  alloc_from-Takes :
      (rounds k i : ℕ) (w₀ w : W)
      → SameDisk d w₀ w
      → k ≤ i
      → i < k + rounds
      → i < 341
      → entry d v w₀ i ≡ 0
      → AllTaken d v w₀ k i
      → Takes d v w₀ i (alloc_from d v rounds k w)
  unfolding alloc_from
  alloc_from-Takes zero k i w₀ w same p q h z t = absurd (omega arith)
  alloc_from-Takes (suc rounds) k i w₀ w same p q h z t =
      let r = fat_get_next_cluster_lem d v f k w (omega arith) (only_341 k (omega arith)) in
      let same' : SameDisk d w₀ r.0 = λ n. r.2 n ∙ same n in
      rw (r.1, alloc_from)
        (elim (ℕ_discrete k i) [
          | yes e ↦
              let free : entry d v w k ≡ 0 = entry-SameDisk w₀ w k same ∙ ap (entry d v w₀) e ∙ z in
              rw (eq→== _ 0 free) (rw e (take_here i w₀ r.0 h same'))
          | no n ↦
              let taken : entry d v w k ≢ 0 =
                λ c. t k (omega arith) (omega arith) (sym (entry-SameDisk w₀ w k same) ∙ c) in
              rw (ne→== _ 0 taken) (
                alloc_from-Takes rounds (k + 1) i w₀ r.0 same' (omega arith) (omega arith) h z
                  (λ j a b. t j (omega arith) b))
        ])

  alloc_from-fault :
      (rounds k : ℕ) (w₀ w : W)
      → SameDisk d w₀ w
      → k ≤ 341
      → 341 < k + rounds
      → AllTaken d v w₀ k 341
      → alloc_from d v rounds k w ≡ none
  unfolding alloc_from
  alloc_from-fault zero k w₀ w same p q t = absurd (omega arith)
  alloc_from-fault (suc rounds) k w₀ w same p q t = elim (ℕ_discrete k 341) [
    | yes e ↦
        let s : Straddles k = omega arith in
        rw (fat_get_next_cluster_straddling d v f k w (omega arith) s, alloc_from) refl
    | no n ↦
        let r = fat_get_next_cluster_lem d v f k w (omega arith) (only_341 k (omega arith)) in
        let taken : entry d v w k ≢ 0 =
          λ c. t k (omega arith) (omega arith) (sym (entry-SameDisk w₀ w k same) ∙ c) in
        rw (r.1, alloc_from)
          (rw (ne→== _ 0 taken) (
            alloc_from-fault rounds (k + 1) w₀ r.0 (λ m. r.2 m ∙ same m) (omega arith) (omega arith)
              (λ j a b. t j (omega arith) b)))
  ]

  -- The first free cluster below 341 is taken: it is returned, its entry marks the end of a chain,
  -- and no other entry and no other sector changes.
  pub fat_alloc_cluster-Takes :
      (i : ℕ) (w : W)
      → 2 ≤ i
      → i < 341
      → entry d v w i ≡ 0
      → AllTaken d v w 2 i
      → Takes d v w i (fat_alloc_cluster d v w)
  unfolding fat_alloc_cluster
  fat_alloc_cluster-Takes i w p h z t =
      alloc_from-Takes 510 2 i w w (λ n. refl) p (omega arith) h z t

  -- With every cluster below 341 taken, the search reads past the end of its buffer.
  pub fat_alloc_cluster_fault : (w : W) → AllTaken d v w 2 341 → fat_alloc_cluster d v w ≡ none
  unfolding fat_alloc_cluster
  fat_alloc_cluster_fault w t = alloc_from-fault 510 2 w w (λ n. refl) (omega arith) (omega arith) t
