-- ===== src/Stdio.antt =====
-- libc/stdio/printf.c, putchar.c, puts.c and libc/string/strlen.c.
-- A string is the list of its characters before the 0 that ends it. An argument that is missing or
-- of another kind than the format asks for is a fault.
pub mod Format
pub mod Pieces
pub mod Rounds
pub mod Render
mod Tests
use nedoos.Prelude.{
  ℕ, zero, suc, ◌+◌, ◌-◌, ◌^◌, Bool, true, false, not, ◌||◌, ◌&&◌, List, [], ◌∷◌, Option, none,
  some, ◌>>=◌, get_or, take, drop, u8, ltb, ◌==◌, if◌then◌else◌,
}
use nedoos.Arch.Tty.{Terminal, terminal_write}

-- while (str[len]) len++
pub strlen : List ℕ → ℕ
strlen [] = 0
strlen (c ∷ str) = if c == 0 then 0 else suc (strlen str)

abbrev pub eof : ℕ
eof = 2 ^ 32 - 1

abbrev pub int_max : ℕ
int_max = 2 ^ 31 - 1

-- The result is the argument.
pub putchar : ℕ → Terminal → Terminal × ℕ
putchar ic t = (terminal_write (u8 ic ∷ []) t, ic)

-- The bytes of `data`, up to one that cannot be written.
pub print : List ℕ → Terminal → Terminal × Bool
unfolding putchar
print [] t = (t, true)
print (c ∷ bytes) t =
    let r = putchar (u8 c) t in
    let rest = print bytes r.0 in if r.1 == eof then (r.0, false) else rest

pub data Argument : Type 0 where
  character : ℕ → Argument
  text : List ℕ → Argument

-- What `printf` returns: -1, or the number of characters.
pub data Return : Type 0 where
  failed : Return
  count : ℕ → Return

-- A round of the loop ends the function, or goes on with what is left.
pub data Round : Type 0 where
  stop : Terminal → Return → Round
  go_on : Terminal → List ℕ → List Argument → ℕ → Round

abbrev pub percent : ℕ
percent = 37

-- while (format[amount] && format[amount] != '%') amount++
pub run_length : List ℕ → ℕ
run_length [] = 0
run_length (c ∷ format) = if c == 0 || c == percent then 0 else suc (run_length format)

-- Print a piece, unless the count would pass INT_MAX, and go on with the rest of the format.
pub put_piece : List ℕ → ℕ → List ℕ → List Argument → ℕ → Terminal → Round
unfolding print
put_piece piece amount format args written t =
    if ltb (int_max - written) amount
    then stop t failed
    else (let r = print piece t in
        if r.1 then go_on r.0 format args (written + amount) else stop r.0 failed)

pub plain : List ℕ → List Argument → ℕ → Terminal → Round
unfolding run_length put_piece
plain format args written t =
    let amount = 1 + run_length (drop 1 format) in
    put_piece (take amount format) amount (drop amount format) args written t

pub char_round : List ℕ → List Argument → ℕ → Terminal → Option Round
unfolding put_piece
char_round format (character c ∷ args) written t =
    some (put_piece (u8 c ∷ []) 1 format args written t)
char_round format _ written t = none

pub text_round : List ℕ → List Argument → ℕ → Terminal → Option Round
unfolding strlen put_piece
text_round format (text str ∷ args) written t =
    some (put_piece (take (strlen str) str) (strlen str) format args written t)
text_round format _ written t = none

-- Another letter: the format from its `%` on is printed as it stands.
pub unknown : List ℕ → List Argument → ℕ → Terminal → Round
unfolding strlen put_piece
unknown format args written t =
    let len = strlen format in put_piece (take len format) len (drop len format) args written t

pub one_round : List ℕ → List Argument → ℕ → Terminal → Option Round
unfolding plain char_round text_round unknown
one_round format args written t =
    let next = get_or format 1 0 in
    if get_or format 0 0 == 0
    then some (stop t (count written))
    else if not (get_or format 0 0 == percent)
    then some (plain format args written t)
    else if next == percent
    then some (plain (drop 1 format) args written t)
    else if next == 99
    then char_round (drop 2 format) args written t
    else if next == 115
    then text_round (drop 2 format) args written t
    else some (unknown format args written t)

-- The loop, for at most `fuel` rounds.
pub rounds : ℕ → List ℕ → List Argument → ℕ → Terminal → Option (Terminal × Return)
unfolding one_round
rounds zero format args written t = none
rounds (suc fuel) format args written t = one_round format args written t >>= λ r. elim r [
  | stop t' result ↦ some (t', result)
  | go_on t' format' args' written' ↦ rounds fuel format' args' written' t'
]

-- Each round takes a character of the format at least.
pub printf : List ℕ → List Argument → Terminal → Option (Terminal × Return)
unfolding strlen rounds
printf format args t = rounds (suc (strlen format)) format args 0 t

pub puts : List ℕ → Terminal → Option (Terminal × Return)
unfolding printf
puts str t = printf (37 ∷ 115 ∷ 10 ∷ []) (text str ∷ []) t
