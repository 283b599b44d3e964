-- ===== src/Fat/Editor/Typing.antt =====
-- What is typed stands in the buffer.
use nedoos.Prelude.{
  ℕ, suc, ◌+◌, ◌-◌, ◌≤◌, ◌<◌, ◌≡◌, refl, ap, Bool, false, ◌&&◌, List, [], ◌∷◌, ◌++◌, length, Option,
  some, update, get_or, ltb, leb, ◌==◌, if◌then◌else◌, arith, if-cases,
}
use nedoos.Drivers.Disk.{Disk}
use nedoos.Fat.Editor.{Editor, Step, again, show, edit_key, edit_keys}

-- Characters from the space to the tilde.
abbrev pub IsPrintable : List ℕ → Type 0
IsPrintable [] = Unit {0}
IsPrintable (c ∷ text) = (32 ≤ c) × (c ≤ 126) × IsPrintable text

abbrev pub keys : List ℕ → List (ℕ × Bool)
keys [] = []
keys (c ∷ text) = (c, false) ∷ keys text

module _ {W : Type 0} (d : Disk W) where
  abbrev typed_char : ℕ → Editor W → Editor W
  typed_char c s = record {
    files = show d c s.files;
    buffer = update s.buffer s.pos c;
    pos = s.pos + 1;
  }

  put_key :
      (c : ℕ) (s : Editor W)
      → 32 ≤ c
      → c ≤ 126
      → s.pos < 4095
      → edit_key d c false s ≡ some (again (typed_char c s))
  unfolding edit_key
  put_key c s lo hi room =
      let P : Option (Step W) → Type 0 = λ r. r ≡ some (again (typed_char c s)) in
      if-cases P ((c == 0x13) && false) _ _ (λ e. absurd (ground (arith, e)))
        (λ _.
          if-cases P ((c == 0x11) && false) _ _ (λ e. absurd (ground (arith, e)))
            (λ _.
              if-cases P ((c == 8) && ltb 0 s.pos) _ _ (λ e. absurd (ground (arith, e)))
                (λ _.
                  if-cases P (leb 32 c && leb c 126 && ltb s.pos 4095) _ _ (λ _. refl)
                    (λ e. absurd (ground (arith, e))))))

  -- The editor once the text has been typed.
  pub record Typed (text : List ℕ) (s t : Editor W) : Type 0 where
    pub pos : t.pos ≡ s.pos + length text
    pub buffer :
        (j : ℕ)
        → t.buffer j ≡ (
            if leb s.pos j && ltb j (s.pos + length text)
            then get_or text (j - s.pos) 0
            else s.buffer j)
    pub volume : t.files.volume ≡ s.files.volume
    pub disk : t.files.disk ≡ s.files.disk

  Typed-cons :
      (c : ℕ) (text : List ℕ) (s t : Editor W)
      → Typed text (typed_char c s) t
      → Typed (c ∷ text) s t
  Typed-cons c text s t y = record {
    pos = omega (arith, y.pos);
    buffer = λ j. ground (arith, y.buffer j, shifted j, here j);
    volume = y.volume;
    disk = y.disk;
  }
    where
      shifted :
          (j : ℕ)
          → s.pos + 1 ≤ j
          → get_or (c ∷ text) (j - s.pos) 0 ≡ get_or text (j - (s.pos + 1)) 0
      shifted j h = ap (λ (i : ℕ). get_or (c ∷ text) i 0) next
        where
          next : j - s.pos ≡ suc (j - (s.pos + 1))
          next = omega arith

      here : (j : ℕ) → j ≡ s.pos → get_or (c ∷ text) (j - s.pos) 0 ≡ c
      here j e = ap (λ (i : ℕ). get_or (c ∷ text) i 0) none_before
        where
          none_before : j - s.pos ≡ 0
          none_before = omega arith

  -- Typing printable text, as long as it fits, puts it into the buffer at the end of what is there.
  pub edit_keys-Typed :
      (text : List ℕ) (more : List (ℕ × Bool)) (s : Editor W)
      → IsPrintable text
      → s.pos + length text ≤ 4095
      → (t : Editor W) × (edit_keys d (keys text ++ more) s ≡ edit_keys d more t) × Typed text s t
  unfolding edit_keys
  edit_keys-Typed [] more s h fits = (
    s,
    refl,
    record { pos = omega arith; buffer = λ j. ground arith; volume = refl; disk = refl },
  )
  edit_keys-Typed (c ∷ text) more s h fits =
      let (t, e, y) = edit_keys-Typed text more (typed_char c s) h.2 (omega arith) in
      (t, rw (put_key c s h.0 h.1 (omega arith)) e, Typed-cons c text s t y)
