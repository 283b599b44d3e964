-- ===== src/Stdio/Rounds.antt =====
-- A round of the loop of `printf` consumes format and prints the text that the format stands for.
use nedoos.Prelude.{
  ℕ, zero, suc, ◌+◌, ◌≤◌, ◌<◌, ◌≡◌, refl, sym, ap, ◌∙◌, Bool, true, false, not, Option, some, ◌>>=◌,
  List, [], ◌∷◌, ◌++◌, take, drop, length, length-append, length-take, u8, ◌==◌, arith, if-cases,
  ==→eq,
}
use nedoos.Arch.Tty.{Terminal, terminal_write}
use nedoos.Stdio.{
  Argument, character, text, Round, go_on, int_max, percent, run_length, plain, char_round,
  text_round, unknown, one_round,
}
use nedoos.Stdio.Format.{
  render, IsText, IsTexts, next_character, next_text, bind_some, render-cons, render-run,
}
use mathlib.Core.Option.{some-injective, none-ne-some}
use nedoos.Stdio.Pieces.{
  IsPiece-text, IsPiece-take, put_piece_lem, strlen_lem, take-length, drop-length,
}

-- What a round leaves: it goes on with a shorter format, and the rest of the text.
pub record Goes (r : Option Round) (format : List ℕ) (written : ℕ) (t : Terminal) (out : List ℕ)
    : Type 0 where
  pub piece : List ℕ
  pub format' : List ℕ
  pub args' : List Argument
  pub rest : List ℕ
  pub result : r ≡ some (go_on (terminal_write piece t) format' args' (written + length piece))
  pub shorter : length format' < length format
  pub is_text : IsText format'
  pub is_texts : IsTexts args'
  pub renders : render format' args' ≡ some rest
  pub splits : out ≡ piece ++ rest

drop-IsText : (n : ℕ) (s : List ℕ) → IsText s → IsText (drop n s)
drop-IsText zero s h = h
drop-IsText (suc n) [] h = tt
drop-IsText (suc n) (c ∷ s) h = drop-IsText n s h.2

length-drop_le : (n : ℕ) (s : List ℕ) → length (drop n s) ≤ length s
length-drop_le zero s = omega arith
length-drop_le (suc n) [] = omega arith
length-drop_le (suc n) (c ∷ s) = omega (arith, length-drop_le n s)

run_length_le : (s : List ℕ) → run_length s ≤ length s
unfolding run_length
run_length_le [] = omega arith
run_length_le (c ∷ s) = ground (arith, run_length_le s)

length-take_le : (n : ℕ) (s : List ℕ) → n ≤ length s → length (take n s) ≡ n
length-take_le n s h = omega (arith, length-take n s)

-- The piece that a round prints when the format goes on with plain characters.
plain-piece :
    (c : ℕ) (g : List ℕ) (args : List Argument) (written : ℕ) (t : Terminal)
    → IsText (c ∷ g)
    → written + suc (run_length g) ≤ int_max
    → plain (c ∷ g) args written t
      ≡ go_on
          (terminal_write (c ∷ take (run_length g) g) t)
          (drop (run_length g) g)
          args
          (written + length (c ∷ take (run_length g) g))
unfolding plain
plain-piece c g args written t h fits = rw (one_more (run_length g)) (
    put_piece_lem (c ∷ take (run_length g) g) (suc (run_length g)) _ args written t
      (IsPiece-take (suc (run_length g)) (c ∷ g) (IsPiece-text (c ∷ g) h)) fits
    ∙ ap
        (λ (n : ℕ).
          go_on (terminal_write (c ∷ take (run_length g) g) t) (drop (run_length g) g) args
            (written + n))
        size)
  where
    one_more : (n : ℕ) → 1 + n ≡ suc n
    one_more n = omega arith

    size : suc (run_length g) ≡ length (c ∷ take (run_length g) g)
    size = ap suc (sym (length-take_le (run_length g) g (run_length_le g)))

plain-Goes :
    (c : ℕ) (g : List ℕ) (format : List ℕ) (args : List Argument) (written : ℕ) (t : Terminal)
    (rest out : List ℕ)
    → IsText (c ∷ g)
    → IsTexts args
    → length g < length format
    → render g args ≡ some rest
    → out ≡ c ∷ rest
    → written + length out ≤ int_max
    → Goes (some (plain (c ∷ g) args written t)) format written t out
unfolding plain
plain-Goes c g format args written t rest out h ha shorter e split fits =
    let (rest', r, k) = render-run g args rest h.2 e in
    let n : ℕ = run_length g in
    let size = length-take_le n g (run_length_le g) in
    record {
      piece = c ∷ take n g;
      format' = drop n g;
      args' = args;
      rest = rest';
      result = ap some (
          plain-piece c g args written t h
            (room (take n g) rest' (split ∙ ap (λ (s : List ℕ). c ∷ s) k) size));
      shorter = omega (arith, length-drop_le n g);
      is_text = drop-IsText n g h.2;
      is_texts = ha;
      renders = r;
      splits = split ∙ ap (λ (s : List ℕ). c ∷ s) k;
    }
  where
    room :
        (run more : List ℕ)
        → out ≡ c ∷ (run ++ more)
        → length run ≡ run_length g
        → written + suc (run_length g) ≤ int_max
    room run more e size = omega (arith, ap length e, length-append run more)

append_nil : (s : List ℕ) → s ++ [] ≡ s
append_nil [] = refl
append_nil (c ∷ s) = ap (λ (r : List ℕ). c ∷ r) (append_nil s)

-- The rest of the format as it stands.
unknown-Goes :
    (c : ℕ) (g : List ℕ) (args : List Argument) (written : ℕ) (t : Terminal)
    → IsText (c ∷ g)
    → IsTexts args
    → written + length (c ∷ g) ≤ int_max
    → Goes (some (unknown (c ∷ g) args written t)) (c ∷ g) written t (c ∷ g)
unfolding unknown render
unknown-Goes c g args written t h ha fits = record {
  piece = c ∷ g;
  format' = [];
  args' = args;
  rest = [];
  result = ap some (
      rw (strlen_lem (c ∷ g) h) (
        rw (take-length g) (
          rw (drop-length g) (
            put_piece_lem (c ∷ g) (length (c ∷ g)) [] args written t (IsPiece-text (c ∷ g) h)
              fits))));
  shorter = omega arith;
  is_text = tt;
  is_texts = ha;
  renders = refl;
  splits = sym (append_nil (c ∷ g));
}

char-Goes :
    (x y : ℕ) (f : List ℕ) (args : List Argument) (written : ℕ) (t : Terminal) (out : List ℕ)
    → IsText f
    → IsTexts args
    → (next_character args >>= (λ r. render f r.1 >>= λ s. some (r.0 ∷ s))) ≡ some out
    → written + length out ≤ int_max
    → Goes (char_round f args written t) (x ∷ y ∷ f) written t out
unfolding char_round
char-Goes x y f [] written t out h ha e fits = absurd (none-ne-some out e)
char-Goes x y f (text s ∷ args) written t out h ha e fits = absurd (none-ne-some out e)
char-Goes x y f (character c ∷ args) written t out h ha e fits =
    let (rest, r, k) = bind_some (render f args) (λ (s : List ℕ). some (u8 c ∷ s)) out e in
    let split : out ≡ u8 c ∷ rest = sym (some-injective _ _ k) in
    record {
      piece = u8 c ∷ [];
      format' = f;
      args' = args;
      rest = rest;
      result = ap some (
          put_piece_lem (u8 c ∷ []) 1 f args written t (omega arith, tt)
            (omega (arith, ap length split)));
      shorter = omega arith;
      is_text = h;
      is_texts = ha;
      renders = r;
      splits = split;
    }

text-Goes :
    (x y : ℕ) (f : List ℕ) (args : List Argument) (written : ℕ) (t : Terminal) (out : List ℕ)
    → IsText f
    → IsTexts args
    → (next_text args >>= (λ r. render f r.1 >>= λ s. some (r.0 ++ s))) ≡ some out
    → written + length out ≤ int_max
    → Goes (text_round f args written t) (x ∷ y ∷ f) written t out
unfolding text_round
text-Goes x y f [] written t out h ha e fits = absurd (none-ne-some out e)
text-Goes x y f (character s ∷ args) written t out h ha e fits = absurd (none-ne-some out e)
text-Goes x y f (text str ∷ args) written t out h ha e fits =
    let (rest, r, k) = bind_some (render f args) (λ (s : List ℕ). some (str ++ s)) out e in
    let split : out ≡ str ++ rest = sym (some-injective _ _ k) in
    record {
      piece = str;
      format' = f;
      args' = args;
      rest = rest;
      result = ap some (
          rw (strlen_lem str ha.0) (
            rw (take-length str) (
              put_piece_lem str (length str) f args written t (IsPiece-text str ha.0)
                (omega (arith, ap length split, length-append str rest)))));
      shorter = omega arith;
      is_text = h;
      is_texts = ha.1;
      renders = r;
      splits = split;
    }

nonzero : (x : ℕ) → 0 < x → (x == 0) ≡ false
nonzero x h = ground arith

pub one_round-Goes :
    (x : ℕ) (f : List ℕ) (args : List Argument) (written : ℕ) (t : Terminal) (out : List ℕ)
    → IsText (x ∷ f)
    → IsTexts args
    → render (x ∷ f) args ≡ some out
    → written + length out ≤ int_max
    → Goes (one_round (x ∷ f) args written t) (x ∷ f) written t out
unfolding one_round render
one_round-Goes x [] args written t out h ha e fits =
    let split : out ≡ x ∷ [] = sym (some-injective _ _ e) in
    let P : Option Round → Type 0 = λ r. Goes r (x ∷ []) written t out in
    if-cases P (x == 0) _ _ (λ z. absurd (omega (arith, h.0, ==→eq x 0 z)))
      (λ _.
        if-cases P (not (x == percent)) _ _
          (λ _. plain-Goes x [] (x ∷ []) args written t [] out h ha (omega arith) refl split fits)
          (λ _. rw split (unknown-Goes x [] args written t h ha (omega (arith, ap length split)))))
one_round-Goes x (y ∷ f) args written t out h ha e fits =
    let P : Option Round → Type 0 = λ r. Goes r (x ∷ y ∷ f) written t out in
    if-cases P (x == 0) _ _ (λ z. absurd (omega (arith, h.0, ==→eq x 0 z)))
      (λ _.
        if-cases P (not (x == percent)) _ _ (λ n. from_plain (not-true _ n))
          (λ p.
            if-cases P (y == percent) _ _
              (λ q. from_percent q (rw q at (rw p at e)) (same_character p q))
              (λ q.
                if-cases P (y == 99) _ _
                  (λ c.
                    char-Goes x y f args written t out h.2.2 ha (rw c at (rw q at (rw p at e)))
                      fits)
                  (λ c.
                    if-cases P (y == 115) _ _
                      (λ d.
                        text-Goes x y f args written t out h.2.2 ha
                          (rw d at (rw c at (rw q at (rw p at e)))) fits)
                      (λ d. from_unknown (rw d at (rw c at (rw q at (rw p at e)))))))))
  where
    from_plain :
        (x == percent) ≡ false
        → Goes (some (plain (x ∷ y ∷ f) args written t)) (x ∷ y ∷ f) written t out
    from_plain n =
        let (rest, r, k) = render-cons x (y ∷ f) args out n e in
        plain-Goes x (y ∷ f) (x ∷ y ∷ f) args written t rest out h ha (omega arith) r k fits

    same_character : not (x == percent) ≡ false → (y == percent) ≡ true → x ≡ y
    same_character p q = ground arith

    from_percent :
        (y == percent) ≡ true
        → (render f args >>= λ s. some (x ∷ s)) ≡ some out
        → x ≡ y
        → Goes (some (plain (y ∷ f) args written t)) (x ∷ y ∷ f) written t out
    from_percent q e' same =
        let (rest, r, k) = bind_some (render f args) (λ (s : List ℕ). some (x ∷ s)) out e' in
        plain-Goes y f (x ∷ y ∷ f) args written t rest out h.2 ha (omega arith) r
          (sym (some-injective _ _ k) ∙ ap (λ (c : ℕ). c ∷ rest) same) fits

    from_unknown :
        Path (Option (List ℕ)) (some (x ∷ y ∷ f)) (some out)
        → Goes (some (unknown (x ∷ y ∷ f) args written t)) (x ∷ y ∷ f) written t out
    from_unknown e' =
        let split : out ≡ x ∷ y ∷ f = sym (some-injective _ _ e') in
        rw split (unknown-Goes x (y ∷ f) args written t h ha (omega (arith, ap length split)))

    not-true : (b : Bool) → not b ≡ true → b ≡ false
    not-true b h = ground arith
