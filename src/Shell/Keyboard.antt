-- ===== src/Shell/Keyboard.antt =====
-- kernel/kernel.c: `getchar`, from the scan code on. Waiting for the scan code is the caller's.
pub mod Layout
mod Tests
use nedoos.Prelude.{
  ℕ, ◌+◌, Bool, true, false, not, ◌&&◌, ◌||◌, List, [], ◌∷◌, length, get_or, ltb, leb, ◌==◌,
  if◌then◌else◌,
}
use nedoos.Console.Terminals.{Desk, vt_switch}

-- The flags of the modifier keys. The `int` 1 is `true`.
pub record Modifiers : Type 0 where
  pub shift : Bool
  pub caps : Bool
  pub alt : Bool
  pub ctrl : Bool

pub record Keyboard : Type 0 where
  pub modifiers : Modifiers
  pub desk : Desk

-- The characters of the scan codes, without and with shift.
abbrev pub small : List ℕ
small =
    0 ∷ 0 ∷ 49 ∷ 50 ∷ 51 ∷ 52 ∷ 53 ∷ 54 ∷ 55 ∷ 56 ∷ 57 ∷ 48 ∷ 45 ∷ 61 ∷ 8 ∷ 9 ∷ 113 ∷ 119 ∷ 101
    ∷ 114 ∷ 116 ∷ 121 ∷ 117 ∷ 105 ∷ 111 ∷ 112 ∷ 91 ∷ 93 ∷ 10 ∷ 0 ∷ 97 ∷ 115 ∷ 100 ∷ 102 ∷ 103 ∷ 104
    ∷ 106 ∷ 107 ∷ 108 ∷ 59 ∷ 39 ∷ 96 ∷ 0 ∷ 92 ∷ 122 ∷ 120 ∷ 99 ∷ 118 ∷ 98 ∷ 110 ∷ 109 ∷ 44 ∷ 46 ∷ 47
    ∷ 0 ∷ 42 ∷ 0 ∷ 32 ∷ []

abbrev pub big : List ℕ
big =
    0 ∷ 0 ∷ 33 ∷ 64 ∷ 35 ∷ 36 ∷ 37 ∷ 94 ∷ 38 ∷ 42 ∷ 40 ∷ 41 ∷ 95 ∷ 43 ∷ 8 ∷ 9 ∷ 81 ∷ 87 ∷ 69 ∷ 82
    ∷ 84 ∷ 89 ∷ 85 ∷ 73 ∷ 79 ∷ 80 ∷ 123 ∷ 125 ∷ 10 ∷ 0 ∷ 65 ∷ 83 ∷ 68 ∷ 70 ∷ 71 ∷ 72 ∷ 74 ∷ 75 ∷ 76
    ∷ 58 ∷ 34 ∷ 126 ∷ 0 ∷ 124 ∷ 90 ∷ 88 ∷ 67 ∷ 86 ∷ 66 ∷ 78 ∷ 77 ∷ 60 ∷ 62 ∷ 63 ∷ 0 ∷ 42 ∷ 0 ∷ 32
    ∷ []

abbrev pub xor : Bool → Bool → Bool
xor a b = if a then not b else b

-- The end of `getchar`: the two layouts.
pub layout : Modifiers → ℕ → ℕ
layout m sc =
    if ltb sc (length small)
    then (if xor m.shift m.caps then get_or big sc 0 else get_or small sc 0)
    else 0

abbrev with_modifiers : Keyboard → Modifiers → Keyboard × ℕ
with_modifiers k m = (record k { modifiers = m }, 0)

abbrev with_terminal : Keyboard → ℕ → Keyboard × ℕ
with_terminal k t = (record k { desk = vt_switch t k.desk }, 0)

-- What follows the keys that change a flag.
pub getchar_plain : Keyboard → ℕ → Keyboard × ℕ
unfolding layout
getchar_plain k sc =
    let alt = k.modifiers.alt in
    if (sc == 0x3b) && alt
    then with_terminal k 0
    else if (sc == 0x3c) && alt
    then with_terminal k 1
    else if (sc == 0x3d) && alt
    then with_terminal k 2
    else if (sc == 0x3e) && alt
    then with_terminal k 3
    else if (sc == 0x48) && alt
    then (k, 0x80)
    else if (sc == 0x50) && alt
    then (k, 0x81)
    else if sc == 0x0f
    then (k, 9)
    else if leb 0x80 sc
    then (k, 0)
    else (k, layout k.modifiers sc)

-- The byte that is returned, for a scan code below 256.
pub getchar : Keyboard → ℕ → Keyboard × ℕ
unfolding getchar_plain
getchar k sc =
    let m = k.modifiers in
    if sc == 0x38
    then with_modifiers k (record m { alt = true })
    else if sc == 0xb8
    then with_modifiers k (record m { alt = false })
    else if sc == 0x1d
    then with_modifiers k (record m { ctrl = true })
    else if sc == 0x9d
    then with_modifiers k (record m { ctrl = false })
    else if (sc == 0x2a) || (sc == 0x36)
    then with_modifiers k (record m { shift = true })
    else if (sc == 0xaa) || (sc == 0xb6)
    then with_modifiers k (record m { shift = false })
    else if sc == 0x3a
    then with_modifiers k (record m { caps = not m.caps })
    else getchar_plain k sc
