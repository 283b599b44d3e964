-- ===== src/Fat/Table/Cut.antt =====
-- Two bytes stored for one entry, seen from every other entry: an even entry and the odd one after
-- it share a byte.
use nedoos.Prelude.{
  ℕ, suc, ◌+◌, ◌*◌, ◌/◌, ◌%◌, ◌<◌, ◌≡◌, ◌≢◌, refl, ap, ◌==◌, if◌then◌else◌, IsBytes, arith, ne→==,
  eq→==, ℕ_discrete,
}
use nedoos.Fat.Table.{fat_offset, pack}
use nedoos.Fat.Table.Packing.{pack_lem}

-- An entry from its two bytes, the low one first.
abbrev cut : ℕ → ℕ → ℕ → ℕ
cut e lo hi = if e % 2 == 0 then (lo + 256 * hi) % 4096 else (lo + 256 * hi) / 16 % 4096

module _ (c b₀ b₁ next x : ℕ) (h₀ : b₀ < 256) (h₁ : b₁ < 256) (h : next < 4096)
    (packed : x ≡ pack c (b₀ + 256 * b₁) next) where
  cut_self : cut c (x % 256) (x / 256 % 256) ≡ next
  cut_self = ground (arith, pack_lem c (b₀ + 256 * b₁) next)

  -- The entry after an even one has its low byte in common with it.
  cut_after : (hi : ℕ) → c % 2 ≡ 0 → cut (suc c) (x / 256 % 256) hi ≡ cut (suc c) b₁ hi
  cut_after hi e = ground (arith, pack_lem c (b₀ + 256 * b₁) next)

  -- The entry before an odd one has its high byte in common with it.
  cut_before : (e lo : ℕ) → c ≡ suc e → c % 2 ≡ 1 → cut e lo (x % 256) ≡ cut e lo b₀
  cut_before e lo q o = ground (arith, pack_lem c (b₀ + 256 * b₁) next)

-- The entry of `e` in a sequence of bytes.
abbrev entry_in : (ℕ → ℕ) → ℕ → ℕ
entry_in bytes e = cut e (bytes (fat_offset e)) (bytes (fat_offset e + 1))

-- Where an entry lies as seen from the entry of `c`.
data Place (c e : ℕ) : Type 0 where
  self : e ≡ c → Place c e
  after : e ≡ suc c → c % 2 ≡ 0 → Place c e
  before : c ≡ suc e → c % 2 ≡ 1 → Place c e
  far :
      fat_offset e ≢ fat_offset c
      → fat_offset e ≢ fat_offset c + 1
      → fat_offset e + 1 ≢ fat_offset c
      → Place c e

place : (c e : ℕ) → Place c e
place c e = elim (ℕ_discrete e c) [
  | yes q ↦ self q
  | no n ↦ elim (ℕ_discrete (fat_offset e) (fat_offset c + 1)) [
    | yes q ↦ after (omega arith) (omega arith)
    | no n₁ ↦ elim (ℕ_discrete (fat_offset e + 1) (fat_offset c)) [
      | yes q ↦ before (omega arith) (omega arith)
      | no n₂ ↦ far (omega arith) n₁ n₂
    ]
  ]
]

-- Storing a packed word for `c` changes the entry of `c` only.
module _ (b b' : ℕ → ℕ) (c next x : ℕ) (h : IsBytes b) (p : next < 4096)
    (packed : x ≡ pack c (b (fat_offset c) + 256 * b (fat_offset c + 1)) next)
    (new : (n : ℕ)
      → b' n ≡ (
          if n == fat_offset c + 1
          then x / 256 % 256
          else if n == fat_offset c
          then x % 256
          else b n)) where
  stored_hi : (n : ℕ) → n ≡ fat_offset c + 1 → b' n ≡ x / 256 % 256
  stored_hi n e = ground (arith, new n)

  stored_lo : (n : ℕ) → n ≡ fat_offset c → b' n ≡ x % 256
  stored_lo n e = ground (arith, new n)

  kept : (n : ℕ) → n ≢ fat_offset c → n ≢ fat_offset c + 1 → b' n ≡ b n
  kept n e q = ground (arith, new n)

  entry_in_self : entry_in b' c ≡ next
  entry_in_self =
      rw (stored_lo (fat_offset c) refl, stored_hi (fat_offset c + 1) refl)
        (cut_self c _ _ next x (h _) (h _) p packed)

  entry_in-after : c % 2 ≡ 0 → entry_in b' (suc c) ≡ entry_in b (suc c)
  entry_in-after e =
      let same : fat_offset (suc c) ≡ fat_offset c + 1 = omega arith in
      rw
        (
          stored_hi (fat_offset (suc c)) same,
          kept (fat_offset (suc c) + 1) (omega arith) (omega arith),
          same,
        )
        (cut_after c _ _ next x (h _) (h _) p packed _ e)

  entry_in-before : (e : ℕ) → c ≡ suc e → c % 2 ≡ 1 → entry_in b' e ≡ entry_in b e
  entry_in-before e q o =
      let same : fat_offset e + 1 ≡ fat_offset c = omega arith in
      rw (stored_lo (fat_offset e + 1) same, kept (fat_offset e) (omega arith) (omega arith), same)
        (cut_before c _ _ next x (h _) (h _) p packed e _ q o)

  entry_in-far :
      (e : ℕ)
      → fat_offset e ≢ fat_offset c
      → fat_offset e ≢ fat_offset c + 1
      → fat_offset e + 1 ≢ fat_offset c
      → entry_in b' e ≡ entry_in b e
  entry_in-far e n₀ n₁ n₂ =
      rw (kept (fat_offset e) n₀ n₁, kept (fat_offset e + 1) n₂ (omega arith)) refl

  -- By the distance of the two entries.
  entry_in-place : (e : ℕ) → Place c e → entry_in b' e ≡ (if e == c then next else entry_in b e)
  entry_in-place e (self q) = rw (eq→== e c q) (rw q entry_in_self)
  entry_in-place e (after q even) = rw (ne→== e c (omega arith)) (rw q (entry_in-after even))
  entry_in-place e (before q odd) = rw (ne→== e c (omega arith)) (entry_in-before e q odd)
  entry_in-place e (far n₀ n₁ n₂) =
      rw (ne→== e c (λ q. n₀ (ap fat_offset q))) (entry_in-far e n₀ n₁ n₂)

  pub entry_in-stored : (e : ℕ) → entry_in b' e ≡ (if e == c then next else entry_in b e)
  entry_in-stored e = entry_in-place e (place c e)
