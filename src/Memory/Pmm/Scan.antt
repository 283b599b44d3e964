-- ===== src/Memory/Pmm/Scan.antt =====
-- What a pass over the bitmap finds.
use nedoos.Prelude.{
  ℕ, zero, suc, ◌+◌, ◌≤◌, ◌<◌, ◌≡◌, true, false, none, some, Array, arith, inl, inr, Bool-cases,
  ◌==◌, ==→eq, ==→ne,
}
use nedoos.Memory.Pmm.{bitmap_test, scan}

-- Every frame from `lo` up to but without `hi` is in use.
abbrev pub AllUsed : Array → ℕ → ℕ → Type 0
AllUsed m lo hi = (c : ℕ) → lo ≤ c → c < hi → bitmap_test m c ≡ true

AllUsed-extend :
    (m : Array) (i hi : ℕ) → bitmap_test m i ≡ true → AllUsed m (i + 1) hi → AllUsed m i hi
AllUsed-extend m i hi h rest c p q = elim (Bool-cases (c == i)) [
  | inl e ↦ rw (==→eq c i e) h
  | inr e ↦ rest c (omega (arith, ==→ne c i e)) q
]

pub record Found (m : Array) (i stop j : ℕ) : Type 0 where
  pub from : i ≤ j
  pub before : j < stop
  pub clear : bitmap_test m j ≡ false
  pub least : AllUsed m i j

Found-extend :
    (m : Array) (i stop j : ℕ) → bitmap_test m i ≡ true → Found m (i + 1) stop j → Found m i stop j
Found-extend m i stop j h f = record {
  from = omega arith;
  before = f.before;
  clear = f.clear;
  least = AllUsed-extend m i j h f.least;
}

pub scan-Found :
    (n i stop j : ℕ) (m : Array) → i + n ≡ stop → scan n i m ≡ some j → Found m i stop j
unfolding scan
scan-Found zero i stop j m e h = absurd (cc)
scan-Found (suc n) i stop j m e h = elim (Bool-cases (bitmap_test m i)) [
  | inl t ↦ Found-extend m i stop j t (scan-Found n (i + 1) stop j m (omega arith) (ground arith))
  | inr t ↦ here (ground arith) t
]
  where
    here : i ≡ j → bitmap_test m i ≡ false → Found m i stop j
    here q t = record {
      from = omega arith;
      before = omega arith;
      clear = rw (← q) t;
      least = λ c p r. absurd (omega arith);
    }

pub scan-none : (n i stop : ℕ) (m : Array) → i + n ≡ stop → scan n i m ≡ none → AllUsed m i stop
unfolding scan
scan-none zero i stop m e h = λ c p q. absurd (omega arith)
scan-none (suc n) i stop m e h = elim (Bool-cases (bitmap_test m i)) [
  | inl t ↦ AllUsed-extend m i stop t (scan-none n (i + 1) stop m (omega arith) (ground arith))
  | inr t ↦ absurd (ground arith)
]
