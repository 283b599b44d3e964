-- ===== src/Fat/Older/Chain.antt =====
-- The loop over the clusters ends when the chain does, and reads its sectors in order.
use nedoos.Prelude.{
  ℕ, zero, suc, ◌+◌, ◌*◌, ◌/◌, ◌%◌, ◌^◌, ◌≤◌, ◌<◌, ◌≡◌, refl, sym, ap, ◌∙◌, inl, inr, true, false,
  ◌&&◌, List, [], ◌∷◌, ◌++◌, length, Option, none, some, ◌>>=◌, ltb, ◌==◌, if◌then◌else◌, arith,
  Bool-cases,
}
use mathlib.Core.Option.{some-injective, none-ne-some}
use nedoos.Prelude.Bits.{bit_and_mask}
use nedoos.Fat.Table.{word_at}
use nedoos.Fat.Older.{
  FatFs, Reading, cluster_sector, fat_index, next_of, store_sector, read_cluster, read_clusters,
}

unfoldable pub up_from : ℕ → ℕ → List ℕ
up_from sector zero = []
up_from sector (suc n) = sector ∷ up_from (sector + 1) n

-- A disk whose reads succeed and change nothing.
abbrev pub IsReadable : {W : Type 0} → (ℕ → W → ℕ × List ℕ × W) → (ℕ → List ℕ) → Type 0
IsReadable {W} read content = (n : ℕ) (w : W) → read n w ≡ (0, content n, w)

-- The twelve bits of the entry, low for an even cluster and high for an odd one.
abbrev pub twelve_bits : ℕ → ℕ → ℕ
twelve_bits c word = if c % 2 == 0 then word % 2 ^ 12 else word / 2 ^ 4

next_of-twelve_bits : (c word : ℕ) → next_of c word ≡ twelve_bits c word
next_of-twelve_bits c word = ground (arith, bit_and_mask 1 c, bit_and_mask 12 word)

-- The chain of results goes on with the entry, however the code cuts it out.
through_link {ℓ} :
    {A : Type ℓ} (o : Option ℕ) (g f : ℕ → ℕ) (k : ℕ → Option A) (d : ℕ)
    → ((word : ℕ) → f word ≡ g word)
    → (o >>= λ word. some (g word)) ≡ some d
    → (o >>= λ word. k (f word)) ≡ k d
through_link none g f k d same e = absurd (none-ne-some d e)
through_link (some word) g f k d same e = ap k (same word ∙ some-injective _ _ e)

module _ {W : Type 0} (read : ℕ → W → ℕ × List ℕ × W) (content : ℕ → List ℕ)
    (h : IsReadable read content) (fs : FatFs) where
  -- The sectors, one after the other, until nothing is wanted any more.
  unfoldable pub consume : List ℕ → Reading W → Reading W
  consume [] r = r
  consume (n ∷ ns) r =
      let rest = consume ns (store_sector read fs (content n) r.disk r) in
      if r.remaining == 0 then r else rest

  pub consume-done : (ns : List ℕ) (r : Reading W) → (r.remaining == 0) ≡ true → consume ns r ≡ r
  unfolding consume
  consume-done [] r e = refl
  consume-done (n ∷ ns) r e = rw e refl

  pub consume-append : (a b : List ℕ) (r : Reading W) → consume (a ++ b) r ≡ consume b (consume a r)
  unfolding consume
  consume-append [] b r = refl
  consume-append (n ∷ a) b r = elim (Bool-cases (r.remaining == 0)) [
    | inl e ↦ rw e (sym (consume-done b r e))
    | inr e ↦ rw e (consume-append a b (store_sector read fs (content n) r.disk r))
  ]

  consume-disk : (ns : List ℕ) (r : Reading W) → (consume ns r).disk ≡ r.disk
  unfolding consume
  consume-disk [] r = refl
  consume-disk (n ∷ ns) r = elim (Bool-cases (r.remaining == 0)) [
    | inl e ↦ rw e refl
    | inr e ↦ rw e (consume-disk ns (store_sector read fs (content n) r.disk r))
  ]

  read_cluster-consume :
      (n sector : ℕ) (r : Reading W)
      → read_cluster read fs n sector r ≡ (true, consume (up_from sector n) r)
  unfolding read_cluster consume up_from
  read_cluster-consume zero sector r = refl
  read_cluster-consume (suc n) sector r = elim (Bool-cases (r.remaining == 0)) [
    | inl e ↦ rw e refl
    | inr e ↦ rw e (
        rw (h sector r.disk)
          (read_cluster-consume n (sector + 1) (store_sector read fs (content sector) r.disk r)))
  ]

  -- The entry of a cluster in the table.
  unfoldable pub link : ℕ → Option ℕ
  link c =
      word_at (content (fs.fat_start + c * 3 / 2 / fs.bytes_per_sector))
        (c * 3 / 2 % fs.bytes_per_sector)
      >>= λ word. some (twelve_bits c word)

  -- The clusters of a file after its first one, up to the mark of the end.
  abbrev pub IsChain : ℕ → List ℕ → Type 0
  IsChain c [] = (c < 0xff8) × ((end : ℕ) × (link c ≡ some end) × (0xff8 ≤ end))
  IsChain c (d ∷ cs) = (c < 0xff8) × (link c ≡ some d) × IsChain d cs

  abbrev pub sectors_of : ℕ → List ℕ → List ℕ
  sectors_of c [] = up_from (cluster_sector fs c) fs.sectors_per_cluster
  sectors_of c (d ∷ cs) = up_from (cluster_sector fs c) fs.sectors_per_cluster ++ sectors_of d cs

  next_round :
      (fuel c d : ℕ) (r : Reading W)
      → (r.remaining == 0) ≡ false
      → c < 0xff8
      → link c ≡ some d
      → read_clusters read fs (suc fuel) c r
        ≡ read_clusters read fs fuel d
            (consume (up_from (cluster_sector fs c) fs.sectors_per_cluster) r)
  unfolding read_clusters link
  next_round fuel c d r e small l = rw (goes_on r.remaining c e small) (
      rw (read_cluster-consume fs.sectors_per_cluster (cluster_sector fs c) r) (
        rw
          (h (fs.fat_start + fat_index c / fs.bytes_per_sector)
            (consume (up_from (cluster_sector fs c) fs.sectors_per_cluster) r).disk)
          (through_link _ (twelve_bits c) (next_of c)
            (λ next.
              read_clusters read fs fuel next
                (consume (up_from (cluster_sector fs c) fs.sectors_per_cluster) r))
            d (next_of-twelve_bits c) l)))
    where
      goes_on : (n c : ℕ) → (n == 0) ≡ false → c < 0xff8 → (ltb 0 n && ltb c 0xff8) ≡ true
      goes_on n c e small = ground arith

  stops :
      (fuel c : ℕ) (r : Reading W)
      → (ltb 0 r.remaining && ltb c 0xff8) ≡ false
      → read_clusters read fs (suc fuel) c r ≡ some r
  unfolding read_clusters
  stops fuel c r e = rw e refl

  -- With more fuel than the chain has clusters the loop ends, having read the sectors of the chain,
  -- in their order, until no more was wanted.
  pub read_clusters-consume :
      (cs : List ℕ) (c fuel : ℕ) (r : Reading W)
      → IsChain c cs
      → length cs + 1 < fuel
      → read_clusters read fs fuel c r ≡ some (consume (sectors_of c cs) r)
  read_clusters-consume cs c zero r chain enough = absurd (omega arith)
  read_clusters-consume [] c (suc zero) r chain enough = absurd (omega arith)
  read_clusters-consume [] c (suc (suc fuel)) r (small, (end, l, far)) enough =
      elim (Bool-cases (r.remaining == 0)) [
        | inl e ↦ rw (consume-done (sectors_of c []) r e) (stops (suc fuel) c r (ground (arith, e)))
        | inr e ↦ next_round (suc fuel) c end r e small l ∙ stops fuel end _ (ground (arith, far))
      ]
  read_clusters-consume (d ∷ cs) c (suc fuel) r (small, l, rest) enough =
      elim (Bool-cases (r.remaining == 0)) [
        | inl e ↦ rw (consume-done (sectors_of c (d ∷ cs)) r e) (stops fuel c r (ground (arith, e)))
        | inr e ↦
            next_round fuel c d r e small l
            ∙ read_clusters-consume cs d fuel _ rest (omega arith)
            ∙ ap some (
                sym (
                  consume-append (up_from (cluster_sector fs c) fs.sectors_per_cluster)
                    (sectors_of d cs) r))
      ]
