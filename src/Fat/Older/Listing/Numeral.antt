-- ===== src/Fat/Older/Listing/Numeral.antt =====
-- The numeral that `fat_ls` makes is the one that `print_dec` prints.
use nedoos.Prelude.{
  ℕ, zero, suc, ◌+◌, ◌-◌, ◌/◌, ◌%◌, ◌^◌, ◌≤◌, ◌<◌, ◌≡◌, refl, ap, ap₂, ◌∙◌, sym, fun_ext, ◌&&◌,
  ◌||◌, List, [], ◌∷◌, some, ◌>>=◌, Array, update, for_up_inv, ltb, leb, if◌then◌else◌, arith,
  ne→==, ℕ_discrete,
}
use native.Mathlib.Numerals.{unary_clauses}
use nedoos.Console.{Console, print, digits, print_dec}
use nedoos.Fat.Older.Listing.{store_digits, exchange, text_from, size_text}

-- The first `n` places, the last of them first.
down : ℕ → Array → List ℕ
down zero a = []
down (suc n) a = a n ∷ down n a

down-update : (n j v : ℕ) (a : Array) → n ≤ j → down n (update a j v) ≡ down n a
unfolding down
down-update zero j v a h = refl
down-update (suc n) j v a h = ap₂ (λ x y. x ∷ y) (ground arith) (down-update n j v a (omega arith))

down-next : (j : ℕ) (a : Array) → down (j + 1) a ≡ a j ∷ down j a
unfolding down
down-next j a = simp unary_clauses refl

-- Read backwards the digits are those of `print_dec`.
store_digits-digits :
    (room size : ℕ) (a : Array) (j : ℕ)
    → (store_digits room size a j >>= λ r. some (down r.1 r.0)) ≡ digits room size (down j a)
unfolding store_digits digits
store_digits-digits room zero a j = refl
store_digits-digits zero (suc size) a j = refl
store_digits-digits (suc room) (suc size) a j =
    store_digits-digits room (suc size / 10) (update a j (48 + suc size % 10)) (j + 1)
    ∙ ap (digits room (suc size / 10)) (
        down-next j _
        ∙ ap₂ (λ x y. x ∷ y) (ground arith) (down-update j j (48 + suc size % 10) a (omega arith)))

abbrev turned : ℕ → Array → ℕ → ℕ → ℕ
turned j a k i = if ltb i k || (leb (j - k) i && ltb i j) then a (j - 1 - i) else a i

-- The exchanges turn the first `j` places round.
exchange-turned : (j : ℕ) (a : Array) (i : ℕ) → exchange j a i ≡ turned j a (j / 2) i
unfolding exchange
exchange-turned j a =
    for_up_inv (λ k (w : Array). (i : ℕ) → w i ≡ turned j a k i)
      (λ k (w : Array). update (update w k (w (j - 1 - k))) (j - 1 - k) (w k)) (j / 2) 0 (j / 2) a
      (λ k w b ih i. ground (arith, b, ih i, ih k, ih (j - 1 - k))) (omega arith)
      (λ i. ground arith)

exchange-get : (j : ℕ) (a : Array) (i : ℕ) → i < j → exchange j a i ≡ a (j - 1 - i)
exchange-get j a i b = elim (ℕ_discrete i (j - 1 - i)) [
  | yes middle ↦ ground (arith, exchange-turned j a i, ap a middle, b)
  | no side ↦ ground (arith, exchange-turned j a i, b, side)
]

text_from-down :
    (n i : ℕ) (w a : Array)
    → ((m : ℕ) → m < n → w (i + m) ≡ a (n - 1 - m))
    → text_from n i w ≡ down n a
unfolding text_from down
text_from-down zero i w a h = refl
text_from-down (suc n) i w a h =
    ap₂ (λ x y. x ∷ y) (ap w (omega arith) ∙ h 0 (omega arith) ∙ ap a (omega arith))
      (text_from-down n (i + 1) w a
        (λ m b. ap w (omega arith) ∙ h (m + 1) (omega arith) ∙ ap a (omega arith)))

digits-room :
    (room n : ℕ) (buf : List ℕ) → n < 10 ^ room → digits (suc room) n buf ≡ digits room n buf
unfolding digits
digits-room room zero buf h = refl
digits-room zero (suc n) buf h = absurd (omega (arith, h))
digits-room (suc room) (suc n) buf h = digits-room room (suc n / 10) _ (omega (arith, h))

turned_text : (j : ℕ) (a : Array) → text_from j 0 (exchange j a) ≡ down j a
turned_text j a =
    text_from-down j 0 (exchange j a) a
      (λ m b. ap (exchange j a) (omega arith) ∙ exchange-get j a m b ∙ ap a (omega arith))

size_text-digits : (n : ℕ) → suc n < 10 ^ 11 → size_text (suc n) ≡ digits 12 (suc n) []
unfolding size_text down
size_text-digits n h = rw (ne→== (suc n) 0 (λ e. absurd (omega (arith, e)))) (
    ap (λ f. store_digits 11 (suc n) (λ i. 0) 0 >>= f)
      (fun_ext (λ r. ap some (turned_text r.1 r.0)))
    ∙ store_digits-digits 11 (suc n) (λ i. 0) 0
    ∙ sym (digits-room 11 (suc n) [] h))

size_text-zero : size_text 0 ≡ some (48 ∷ [])
unfolding size_text
size_text-zero = refl

-- `fat_ls` prints the size of a file, of 32 bits, as `print_dec` does.
pub size_text-print_dec :
    (size : ℕ) (c : Console)
    → size < 2 ^ 32
    → print_dec size c ≡ (size_text size >>= λ text. some (print text c))
unfolding print_dec print
size_text-print_dec zero c h = rw size_text-zero refl
size_text-print_dec (suc n) c h =
    rw (ne→== (suc n) 0 (λ e. absurd (omega (arith, e))), size_text-digits n (omega (arith, h)))
      refl
