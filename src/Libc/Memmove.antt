-- ===== src/Libc/Memmove.antt =====
-- `memmove` copies as if through a temporary, whichever way the two regions overlap.
use nedoos.Prelude.{
  ℕ, zero, suc, ◌+◌, ◌-◌, ◌≤◌, ◌≡◌, ◌&&◌, Array, update, for_up_inv, ltb, leb, if◌then◌else◌, arith,
  ◌⊎◌, sym, ◌∙◌, inl, inr, Bool-cases, ltb→lt, not-ltb→le,
}
use nedoos.Libc.{copy_up, copy_down, memcpy, memmove}

-- What stands at `j` when `size` bytes have been moved from `src` to `dst`.
abbrev pub moved : Array → ℕ → ℕ → ℕ → ℕ → ℕ
moved m dst src size j = if leb dst j && ltb j (dst + size) then m (src + (j - dst)) else m j

copy_up-get :
    (m : Array) (dst src size : ℕ)
    → dst ≤ src
    → (j : ℕ) → copy_up m dst src size j ≡ moved m dst src size j
unfolding copy_up
copy_up-get m dst src size h =
    for_up_inv (λ i (t : Array). (j : ℕ) → t j ≡ moved m dst src i j) _ size 0 size m
      (λ i t p ih j. ground (arith, ih j, ih (src + i))) (omega arith) (λ j. ground arith)

copy_down-get :
    (size : ℕ) (m : Array) (dst src : ℕ)
    → src ≤ dst
    → (j : ℕ) → copy_down m dst src size j ≡ moved m dst src size j
unfolding copy_down
copy_down-get zero m dst src h j = ground arith
copy_down-get (suc i) m dst src h j =
    ground (arith, copy_down-get i (update m (dst + i) (m (src + i))) dst src h j)

-- Every byte of the destination holds what its source held before the call, also where the two
-- regions overlap, and no other byte changes.
pub memmove-get :
    (m : Array) (dst src size j : ℕ)
    → memmove m dst src size j
      ≡ (if leb dst j && ltb j (dst + size) then m (src + (j - dst)) else m j)
unfolding memmove
memmove-get m dst src size j = elim (Bool-cases (ltb dst src)) [
  | inl up ↦ rw up (copy_up-get m dst src size (omega (arith, ltb→lt dst src up)) j)
  | inr down ↦ rw down (copy_down-get size m dst src (not-ltb→le dst src down) j)
]

copy_up-apart :
    (m : Array) (dst src size : ℕ)
    → src + size ≤ dst
    → (j : ℕ) → copy_up m dst src size j ≡ moved m dst src size j
unfolding copy_up
copy_up-apart m dst src size h =
    for_up_inv (λ i (t : Array). (j : ℕ) → t j ≡ moved m dst src i j) _ size 0 size m
      (λ i t p ih j. ground (arith, ih j, ih (src + i))) (omega arith) (λ j. ground arith)

-- `memcpy` does what `memmove` does unless the destination begins inside the source.
pub memcpy-memmove :
    (m : Array) (dst src size j : ℕ)
    → (dst ≤ src) ⊎ (src + size ≤ dst)
    → memcpy m dst src size j ≡ memmove m dst src size j
unfolding memcpy
memcpy-memmove m dst src size j (inl h) =
    copy_up-get m dst src size h j ∙ sym (memmove-get m dst src size j)
memcpy-memmove m dst src size j (inr h) =
    copy_up-apart m dst src size h j ∙ sym (memmove-get m dst src size j)
