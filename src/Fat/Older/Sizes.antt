-- ===== src/Fat/Older/Sizes.antt =====
-- How much of the chain is read, with sectors of 512 bytes.
use nedoos.Prelude.{
  ℕ, ◌+◌, ◌%◌, ◌^◌, ◌<◌, ◌≡◌, ◌≢◌, refl, sym, ap, ◌∙◌, List, [], ◌∷◌, ◌++◌, length, some, arith,
  ne→==,
}
use nedoos.Fat.Older.{FatFs, Reading, begin, store_sector, read_clusters}
use nedoos.Fat.Older.Chain.{IsReadable, consume, IsChain, sectors_of, read_clusters-consume}

-- The bytes of some sectors.
abbrev pub contents : (ℕ → List ℕ) → List ℕ → List ℕ
contents content [] = []
contents content (n ∷ ns) = content n ++ contents content ns

append_assoc : (a b c : List ℕ) → (a ++ b) ++ c ≡ a ++ (b ++ c)
append_assoc [] b c = refl
append_assoc (x ∷ a) b c = ap (λ (s : List ℕ). x ∷ s) (append_assoc a b c)

append_empty : (a : List ℕ) → a ++ [] ≡ a
append_empty [] = refl
append_empty (x ∷ a) = ap (λ (s : List ℕ). x ∷ s) (append_empty a)

module _ {W : Type 0} (read : ℕ → W → ℕ × List ℕ × W) (content : ℕ → List ℕ)
    (h : IsReadable read content) (fs : FatFs) (size : fs.bytes_per_sector ≡ 512) where
  -- Another size is never reached: the count wraps below 0, and the whole chain is read.
  consume-ragged :
      (ns : List ℕ) (r : Reading W)
      → r.remaining % 512 ≢ 0
      → r.remaining < 2 ^ 32
      → (consume read content h fs ns r).output ≡ r.output ++ contents content ns
  unfolding consume
  consume-ragged [] r ragged small = sym (append_empty r.output)
  consume-ragged (n ∷ ns) r ragged small = rw (ne→== r.remaining 0 (omega arith)) (
      consume-ragged ns (store_sector read fs (content n) r.disk r) (omega (arith, size))
        (omega (arith, size))
      ∙ append_assoc r.output (content n) (contents content ns))

  -- A size that does not fill whole sectors is passed: all sectors of the chain are written behind
  -- the buffer, however few bytes are wanted.
  pub read_clusters-ragged :
      (cs : List ℕ) (c fuel wanted : ℕ) (w : W)
      → IsChain read content h fs c cs
      → length cs + 1 < fuel
      → wanted % 512 ≢ 0
      → wanted < 2 ^ 32
      → (r : Reading W) × (read_clusters read fs fuel c (begin read fs w wanted) ≡ some r)
        × (r.output ≡ contents content (sectors_of read content h fs c cs))
  read_clusters-ragged cs c fuel wanted w chain enough ragged small =
      let r : Reading W = begin read fs w wanted in
      (
        consume read content h fs (sectors_of read content h fs c cs) r,
        read_clusters-consume read content h fs cs c fuel r chain enough,
        consume-ragged (sectors_of read content h fs c cs) r ragged small,
      )
