-- ===== src/Stdio/Pieces.antt =====
-- A piece of text that `printf` prints at once.
use nedoos.Prelude.{
  ℕ, zero, suc, ◌+◌, ◌-◌, ◌≤◌, ◌<◌, ◌≡◌, ◌≢◌, refl, sym, ap, ◌∙◌, true, List, [], ◌∷◌, take, drop,
  length, u8, arith, ne→==, le→not-ltb,
}
use nedoos.Arch.Tty.{Terminal, terminal_write}
use nedoos.Arch.Tty.Stream.{terminal_write-append, terminal_write-nil}
use nedoos.Stdio.{Argument, go_on, strlen, putchar, print, eof, int_max, put_piece}
use nedoos.Stdio.Format.{IsText}

abbrev pub IsPiece : List ℕ → Type 0
IsPiece [] = Unit {0}
IsPiece (c ∷ s) = (c < 256) × IsPiece s

pub IsPiece-text : (s : List ℕ) → IsText s → IsPiece s
IsPiece-text [] h = tt
IsPiece-text (c ∷ s) h = (h.1, IsPiece-text s h.2)

pub IsPiece-take : (n : ℕ) (s : List ℕ) → IsPiece s → IsPiece (take n s)
IsPiece-take zero s h = tt
IsPiece-take (suc n) [] h = tt
IsPiece-take (suc n) (c ∷ s) h = (h.0, IsPiece-take n s h.1)

pub print_lem : (s : List ℕ) (t : Terminal) → IsPiece s → print s t ≡ (terminal_write s t, true)
unfolding print putchar
print_lem [] t h = rw (terminal_write-nil t) refl
print_lem (c ∷ s) t h = rw (twice c h.0) (
    rw (once c h.0) (
      rw (ne→== c eof (not_eof c h.0)) (
        print_lem s (terminal_write (c ∷ []) t) h.1
        ∙ ap (λ (r : Terminal). (r, true)) (sym (terminal_write-append (c ∷ []) s t)))))
  where
    once : (c : ℕ) → c < 256 → u8 c ≡ c
    once c h = omega arith

    twice : (c : ℕ) → c < 256 → u8 (u8 c) ≡ c
    twice c h = omega arith

    not_eof : (c : ℕ) → c < 256 → c ≢ eof
    not_eof c h = omega arith

pub put_piece_lem :
    (piece : List ℕ) (amount : ℕ) (format : List ℕ) (args : List Argument) (written : ℕ)
    (t : Terminal)
    → IsPiece piece
    → written + amount ≤ int_max
    → put_piece piece amount format args written t
      ≡ go_on (terminal_write piece t) format args (written + amount)
unfolding put_piece
put_piece_lem piece amount format args written t h fits =
    rw (le→not-ltb (int_max - written) amount (omega arith)) (rw (print_lem piece t h) refl)

pub strlen_lem : (s : List ℕ) → IsText s → strlen s ≡ length s
unfolding strlen
strlen_lem [] h = refl
strlen_lem (c ∷ s) h = ground (arith, strlen_lem s h.2)

pub take-length : (s : List ℕ) → take (length s) s ≡ s
take-length [] = refl
take-length (c ∷ s) = ap (λ (r : List ℕ). c ∷ r) (take-length s)

pub drop-length : (s : List ℕ) → drop (length s) s ≡ []
drop-length [] = refl
drop-length (c ∷ s) = drop-length s
