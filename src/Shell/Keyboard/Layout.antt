-- ===== src/Shell/Keyboard/Layout.antt =====
-- What `getchar` returns.
use nedoos.Prelude.{
  ℕ, ◌-◌, ◌≤◌, ◌<◌, ◌≡◌, ◌⊎◌, inl, inr, refl, Bool, true, false, ◌&&◌, ◌||◌, get_or, ltb, leb, ◌==◌,
  if◌then◌else◌, arith, if-cases, ltb→lt,
}
use nedoos.Prelude.Bits.{all_below, all_below_sound}
use nedoos.Shell.Keyboard.{Modifiers, Keyboard, small, big, xor, layout, getchar_plain, getchar}

-- The two layouts agree on where the letters are.
letters : ℕ → Bool
letters sc =
    let s = get_or small sc 0 in if leb 97 s && leb s 122 then get_or big sc 0 == (s - 32) else true

letters_all : (sc : ℕ) → sc < 58 → letters sc ≡ true
unfolding letters
letters_all sc h = all_below_sound 58 letters sc (unfold all_below in refl) h

ascii : ℕ → Bool
ascii sc = ltb (get_or small sc 0) 128 && ltb (get_or big sc 0) 128

ascii_all : (sc : ℕ) → sc < 58 → ascii sc ≡ true
unfolding ascii
ascii_all sc h = all_below_sound 58 ascii sc (unfold all_below in refl) h

-- On a key that has a lower case letter, Shift and Caps Lock each turn it into its upper case
-- letter, and the two together cancel out.
pub layout_letter :
    (m : Modifiers) (sc : ℕ)
    → sc < 58
    → 97 ≤ get_or small sc 0
    → get_or small sc 0 ≤ 122
    → layout m sc ≡ (if xor m.shift m.caps then get_or small sc 0 - 32 else get_or small sc 0)
unfolding layout
layout_letter m sc h lo hi =
    choose (get_or small sc 0) (get_or big sc 0) (xor m.shift m.caps) lo hi
      (unfold letters in letters_all sc h)
  where
    choose :
        (s b : ℕ) (x : Bool)
        → 97 ≤ s
        → s ≤ 122
        → (if leb 97 s && leb s 122 then b == (s - 32) else true) ≡ true
        → (if ltb sc 58 then (if x then b else s) else 0) ≡ (if x then s - 32 else s)
    choose s b x lo hi e = ground arith

layout-ascii : (m : Modifiers) (sc : ℕ) → layout m sc < 128
unfolding layout
layout-ascii m sc =
    if-cases (λ r. r < 128) (ltb sc 58) _ 0
      (λ h.
        inside (get_or small sc 0) (get_or big sc 0) (xor m.shift m.caps)
          (unfold ascii in ascii_all sc (ltb→lt sc 58 h)))
      (λ h. omega arith)
  where
    inside : (s b : ℕ) (x : Bool) → (ltb s 128 && ltb b 128) ≡ true → (if x then b else s) < 128
    inside s b x e = ground arith

-- What one scan code comes to.
pub data Outcome (k : Keyboard) (r : Keyboard × ℕ) : Type 0 where
  nothing : r.1 ≡ 0 → Outcome k r
  text : r.0 ≡ k → r.1 < 128 → Outcome k r
  recall : r.0 ≡ k → k.modifiers.alt ≡ true → (r.1 ≡ 0x80) ⊎ (r.1 ≡ 0x81) → Outcome k r

both : (a b : Bool) → (a && b) ≡ true → b ≡ true
both true true h = refl
both true false h = h
both false b h = absurd cc

nine : 9 < 128
nine = omega arith

plain-Outcome : (k : Keyboard) (sc : ℕ) → Outcome k (getchar_plain k sc)
unfolding getchar_plain
plain-Outcome k sc =
    if-cases (Outcome k) ((sc == 0x3b) && k.modifiers.alt) _ _ (λ h. nothing refl)
      (λ h.
        if-cases (Outcome k) ((sc == 0x3c) && k.modifiers.alt) _ _ (λ h. nothing refl)
          (λ h.
            if-cases (Outcome k) ((sc == 0x3d) && k.modifiers.alt) _ _ (λ h. nothing refl)
              (λ h.
                if-cases (Outcome k) ((sc == 0x3e) && k.modifiers.alt) _ _ (λ h. nothing refl)
                  (λ h.
                    if-cases (Outcome k) ((sc == 0x48) && k.modifiers.alt) _ _
                      (λ h. recall refl (both (sc == 0x48) _ h) (inl refl))
                      (λ h.
                        if-cases (Outcome k) ((sc == 0x50) && k.modifiers.alt) _ _
                          (λ h. recall refl (both (sc == 0x50) _ h) (inr refl))
                          (λ h.
                            if-cases (Outcome k) (sc == 0x0f) _ _ (λ h. text refl nine)
                              (λ h.
                                if-cases (Outcome k) (leb 0x80 sc) _ _ (λ h. nothing refl)
                                  (λ h. text refl (layout-ascii k.modifiers sc)))))))))

-- A scan code that yields a character changes neither the modifiers nor the screen. The character
-- is in ASCII, but for the two that recall the history, which need Alt.
pub getchar-Outcome : (k : Keyboard) (sc : ℕ) → Outcome k (getchar k sc)
unfolding getchar
getchar-Outcome k sc =
    if-cases (Outcome k) (sc == 0x38) _ _ (λ h. nothing refl)
      (λ h.
        if-cases (Outcome k) (sc == 0xb8) _ _ (λ h. nothing refl)
          (λ h.
            if-cases (Outcome k) (sc == 0x1d) _ _ (λ h. nothing refl)
              (λ h.
                if-cases (Outcome k) (sc == 0x9d) _ _ (λ h. nothing refl)
                  (λ h.
                    if-cases (Outcome k) ((sc == 0x2a) || (sc == 0x36)) _ _ (λ h. nothing refl)
                      (λ h.
                        if-cases (Outcome k) ((sc == 0xaa) || (sc == 0xb6)) _ _ (λ h. nothing refl)
                          (λ h.
                            if-cases (Outcome k) (sc == 0x3a) _ _ (λ h. nothing refl)
                              (λ h. plain-Outcome k sc)))))))
