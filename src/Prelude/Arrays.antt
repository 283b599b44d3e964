-- ===== src/Prelude/Arrays.antt =====
-- C arrays and memory as functions of the index, casts to the machine's widths, counted loops.
use Prim.Native.Nat.{ℕ, zero, suc, ◌+◌, ◌%◌, ◌^◌, ◌<◌}
use mathlib.Core.Path.{◌≡◌}
use native.Mathlib.Nat.{add-zero}
use native.Mathlib.Omega.{arith}
use nedoos.Prelude.Tests.{◌==◌, if◌then◌else◌}

abbrev pub u8 : ℕ → ℕ
u8 n = n % 2 ^ 8

abbrev pub u16 : ℕ → ℕ
u16 n = n % 2 ^ 16

abbrev pub u32 : ℕ → ℕ
u32 n = n % 2 ^ 32

abbrev pub Array : Type 0
Array = ℕ → ℕ

-- `f[i] = v`
abbrev pub update {ℓ} : {A : Type ℓ} (f : ℕ → A) (i : ℕ) (v : A) (j : ℕ) → A
update f i v j = if j == i then v else f j

abbrev pub IsBytes : Array → Type 0
IsBytes m = (i : ℕ) → m i < 256

pub update-IsBytes : (m : Array) (i v : ℕ) → IsBytes m → v < 256 → IsBytes (update m i v)
update-IsBytes m i v h p j = ground (arith, h j)

-- for (i = from; i < from + n; i++) s = body i s
unfoldable pub for_up {ℓ} : {S : Type ℓ} → ℕ → ℕ → (ℕ → S → S) → S → S
for_up zero i body s = s
for_up (suc n) i body s = for_up n (i + 1) body (body i s)

-- The invariant rule of the loop. Its end is a variable with an equation.
pub for_up_inv {ℓ κ} :
    {S : Type ℓ} (P : ℕ → S → Type κ) (body : ℕ → S → S) (n i stop : ℕ) (s : S)
    → ((j : ℕ) (t : S) → j < stop → P j t → P (j + 1) (body j t))
    → i + n ≡ stop
    → P i s
    → P stop (for_up n i body s)
unfolding for_up
for_up_inv P body zero i stop s keep e h = rw (← e) (rw (add-zero i) h)
for_up_inv P body (suc n) i stop s keep e h =
    for_up_inv P body n (i + 1) stop (body i s) keep (omega arith) (keep i s (omega arith) h)
