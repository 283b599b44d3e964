-- ===== src/Libc/Memcmp.antt =====
-- `memcmp` compares the first byte at which the two regions differ.
use nedoos.Prelude.{
  ℕ, zero, suc, ◌+◌, ◌≤◌, ◌<◌, ◌≡◌, Array, ltb, arith, if-cases, ltb→lt, not-ltb→le, ℕ_discrete,
}
use nedoos.Libc.{Order, less, same, more, memcmp_from, memcmp}

-- Two regions that agree up to an index.
abbrev pub Agree : Array → ℕ → ℕ → ℕ → Type 0
Agree m a b k = (j : ℕ) → j < k → m (a + j) ≡ m (b + j)

pub data Compared (m : Array) (a b size : ℕ) : Order → Type 0 where
  equal : Agree m a b size → Compared m a b size same
  first_less : (k : ℕ) → k < size → Agree m a b k → m (a + k) < m (b + k) → Compared m a b size less
  first_more : (k : ℕ) → k < size → Agree m a b k → m (b + k) < m (a + k) → Compared m a b size more

memcmp_from-Compared :
    (left i : ℕ) (m : Array) (a b size : ℕ)
    → i + left ≡ size
    → Agree m a b i
    → Compared m a b size (memcmp_from m a b i left)
unfolding memcmp_from
memcmp_from-Compared zero i m a b size e h = equal (λ j p. h j (omega arith))
memcmp_from-Compared (suc left) i m a b size e h =
    let P : Order → Type 0 = Compared m a b size in
    if-cases P (ltb (m (a + i)) (m (b + i))) _ _ (λ l. first_less i (omega arith) h (ltb→lt _ _ l))
      (λ l.
        if-cases P (ltb (m (b + i)) (m (a + i))) _ _
          (λ g. first_more i (omega arith) h (ltb→lt _ _ g))
          (λ g.
            memcmp_from-Compared left (i + 1) m a b size (omega arith)
              (extend (not-ltb→le _ _ l) (not-ltb→le _ _ g))))
  where
    extend : m (b + i) ≤ m (a + i) → m (a + i) ≤ m (b + i) → Agree m a b (i + 1)
    extend p q j small = elim (ℕ_discrete j i) [
      | yes s ↦ rw s (omega arith)
      | no n ↦ h j (omega arith)
    ]

-- `memcmp` returns 0 exactly for equal regions, and else the order of the first two bytes that differ.
pub memcmp-Compared : (m : Array) (a b size : ℕ) → Compared m a b size (memcmp m a b size)
unfolding memcmp
memcmp-Compared m a b size =
    memcmp_from-Compared size 0 m a b size (omega arith) (λ j p. absurd (omega arith))
