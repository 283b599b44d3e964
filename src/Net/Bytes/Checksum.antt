-- ===== src/Net/Bytes/Checksum.antt =====
-- The checksum: the loop ends, and a packet that carries its checksum is recognised by it.
use nedoos.Prelude.{
  ℕ, suc, ◌+◌, ◌-◌, ◌*◌, ◌/◌, ◌%◌, ◌^◌, ◌≤◌, ◌<◌, ◌≡◌, refl, sym, ap, ◌∙◌, bit_and, List, [], ◌∷◌,
  length, Option, none, some, ◌>>=◌, ◌==◌, arith, u32, if-cases, true, ℕ_discrete, ==→eq,
}
use nedoos.Prelude.Bits.{bit_and_mask}
use nedoos.Net.Bytes.{sum_words, fold_carries, checksum}

-- The sum of the words of a packet, without a bound.
abbrev pub total : List ℕ → ℕ
total [] = 0
total (b ∷ []) = b
total (lo ∷ hi ∷ rest) = lo + 256 * hi + total rest

abbrev pub AllBytes : List ℕ → Type 0
AllBytes [] = 0 ≤ 0
AllBytes (b ∷ bs) = (b < 256) × AllBytes bs

pub total-bound : (bs : List ℕ) → AllBytes bs → total bs ≤ 65535 * length bs
total-bound [] h = omega arith
total-bound (b ∷ []) h = omega (arith, h.0)
total-bound (lo ∷ hi ∷ rest) h = omega (arith, h.0, h.1.0, total-bound rest h.1.1)

sum_words-total :
    (bs : List ℕ) (sum : ℕ) → sum + total bs < 2 ^ 32 → sum_words sum bs ≡ sum + total bs
unfolding sum_words
sum_words-total [] sum h = omega arith
sum_words-total (b ∷ []) sum h = omega (arith, h)
sum_words-total (lo ∷ hi ∷ rest) sum h =
    let now : u32 (sum + (lo + 256 * hi)) ≡ sum + (lo + 256 * hi) = omega (arith, h) in
    ap (λ s. sum_words s rest) now
    ∙ (sum_words-total rest (sum + (lo + 256 * hi)) (omega (arith, h)) ∙ omega arith)

-- One round keeps the sum modulo 65535, and a sum that is not zero stays so.
abbrev next : ℕ → ℕ
next s = u32 (bit_and s 0xffff + s / 2 ^ 16)

next_lem : (s : ℕ) → s < 2 ^ 32 → next s ≡ s % 65536 + s / 65536
next_lem s h = omega (arith, bit_and_mask 16 s)

-- What the loop leaves.
pub record Folds (s r : ℕ) : Type 0 where
  pub small : r < 65536
  pub same : r % 65535 ≡ s % 65535
  pub positive : 0 < s → 0 < r
  pub none_left : s ≡ 0 → r ≡ 0

-- A sum that one, two, three rounds are enough for.
fold_one : (s : ℕ) → s < 65536 → fold_carries 1 s ≡ some s
unfolding fold_carries
fold_one s h = let low : (s / 2 ^ 16 == 0) ≡ true = ground (arith, h) in rw low refl

fold_step :
    (fuel s r : ℕ)
    → fold_carries fuel (next s) ≡ some r
    → ((s < 65536) → r ≡ s)
    → fold_carries (suc fuel) s ≡ some r
unfolding fold_carries
fold_step fuel s r e small =
    if-cases (λ o. o ≡ some r) (s / 2 ^ 16 == 0) (some s) _ (λ h. ap some (sym (small (low h))))
      (λ h. e)
  where
    low : (s / 2 ^ 16 == 0) ≡ true → s < 65536
    low h = omega (arith, ==→eq _ 0 h)

fold_two : (s : ℕ) → s ≤ 131070 → fold_carries 2 s ≡ some (s % 65536 + s / 65536)
fold_two s h =
    let n = next_lem s (omega (arith, h)) in
    fold_step 1 s (s % 65536 + s / 65536)
      (ap (fold_carries 1) n ∙ fold_one (s % 65536 + s / 65536) (omega (arith, h)))
      (λ q. omega (arith, q))

abbrev folded : ℕ → ℕ
folded s = let t = s % 65536 + s / 65536 in t % 65536 + t / 65536

fold_three : (s : ℕ) → s < 2 ^ 32 → fold_carries 3 s ≡ some (folded s)
fold_three s h =
    fold_step 2 s (folded s)
      (ap (fold_carries 2) (next_lem s h) ∙ fold_two (s % 65536 + s / 65536) (omega (arith, h)))
      (λ q. omega (arith, q))

-- Three rounds are enough for any sum of 32 bits. What is left has 16 bits and is the same modulo
-- 65535, and is not zero unless the sum is.
pub fold_carries-Folds : (s : ℕ) → s < 2 ^ 32 → (r : ℕ) × (fold_carries 3 s ≡ some r) × Folds s r
fold_carries-Folds s h = (
  folded s,
  fold_three s h,
  record {
    small = omega (arith, h);
    same = omega (arith, h);
    positive = λ p. omega (arith, h, p);
    none_left = λ p. omega (arith, p);
  },
)

pub checksum-of :
    (bs : List ℕ) (s : ℕ)
    → total bs ≡ s
    → s < 2 ^ 32
    → (r : ℕ) × (checksum bs ≡ some (65535 - r)) × Folds s r
unfolding checksum
checksum-of bs s e h =
    let sum : sum_words 0 bs ≡ s = sum_words-total bs 0 (omega (arith, e, h)) ∙ omega (arith, e) in
    let (r, q, f) = fold_carries-Folds s h in
    let low : 0xffff - r % 2 ^ 16 ≡ 65535 - r = omega (arith, f.small) in
    (
      r,
      ap (λ t. fold_carries 3 t >>= λ u. some (0xffff - u % 2 ^ 16)) sum
          ∙ (ap (λ o. o >>= λ u. some (0xffff - u % 2 ^ 16)) q ∙ ap some low),
      f,
    )

-- Two packets that differ in the checksum only: where the one has zero the other has the checksum
-- of the first. The checksum of the second is zero.
pub checksum_verifies :
    (plain sealed : List ℕ) (c : ℕ)
    → AllBytes plain
    → length plain < 65536
    → checksum plain ≡ some c
    → total sealed ≡ total plain + c
    → checksum sealed ≡ some 0
checksum_verifies plain sealed c b n e t =
    let bound : total plain ≤ 65535 * length plain = total-bound plain b in
    let (r, q, f) = checksum-of plain (total plain) refl (omega (arith, bound, n)) in
    let value : c ≡ 65535 - r = some_eq (sym e ∙ q) in
    let (r', q', f') = checksum-of sealed (total sealed) refl (omega (arith, bound, n, t, value)) in
    let zero : r' ≡ 65535 = all_ones (total plain) r r' f (sum r r' f' value) in
    q' ∙ ap some (omega (arith, zero))
  where
    some_eq : {x y : ℕ} → some x ≡ some y → x ≡ y
    some_eq {x} {y} h = ap (λ o. get o) h
      where
        get : Option ℕ → ℕ
        get none = 0
        get (some x) = x

    sum :
        (r r' : ℕ) → Folds (total sealed) r' → c ≡ 65535 - r → Folds (total plain + (65535 - r)) r'
    sum r r' f v = rw (← v) (rw (← t) f)

    all_ones : (s r r' : ℕ) → Folds s r → Folds (s + (65535 - r)) r' → r' ≡ 65535
    all_ones s r r' f g =
        let some_sum : 0 < s + (65535 - r) = elim (ℕ_discrete s 0) [
          | yes z ↦ omega (arith, f.none_left z)
          | no n ↦ omega (arith, n)
        ] in
        omega (arith, f.small, f.same, g.small, g.same, g.positive some_sum)
