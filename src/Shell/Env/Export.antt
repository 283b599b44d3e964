-- ===== src/Shell/Env/Export.antt =====
-- `export NAME=value`: what it takes for the name and the value, and the sizes of the buffers.
use nedoos.Prelude.{
  ℕ, zero, suc, ◌≤◌, ◌<◌, ◌≡◌, ◌≢◌, refl, ap, ap₂, List, [], ◌∷◌, ◌++◌, take, length, length-take,
  ◌==◌, arith, ne→==, eq→==, if-cases, ℕ_discrete,
}
use nedoos.Shell.Env.{Env, env_set, skip_spaces, read_name, export_value, export}
use nedoos.Shell.Env.Lookup.{Sets, replaced, added, full, env_set-Sets}

-- No character of the name is `=`.
abbrev pub NoEquals : List ℕ → Type 0
NoEquals [] = 0 ≤ 0
NoEquals (c ∷ cs) = (c ≢ 61) × NoEquals cs

read_name-append :
    (room : ℕ) (name rest : List ℕ)
    → NoEquals name
    → length name ≤ room
    → read_name room (name ++ (61 ∷ rest)) ≡ (name, 61 ∷ rest)
unfolding read_name
read_name-append zero [] rest h b = refl
read_name-append (suc room) [] rest h b = refl
read_name-append zero (c ∷ cs) rest h b = absurd (omega (arith, b))
read_name-append (suc room) (c ∷ cs) rest h b =
    let ih = read_name-append room cs rest h.1 (omega (arith, b)) in
    rw (ne→== c 61 h.0) (ap₂ (λ x y. (c ∷ x, y)) (ap (λ p. p.0) ih) (ap (λ p. p.1) ih))

take_all : (n : ℕ) (xs : List ℕ) → length xs ≤ n → take n xs ≡ xs
take_all zero [] h = refl
take_all zero (x ∷ xs) h = absurd (omega (arith, h))
take_all (suc n) [] h = refl
take_all (suc n) (x ∷ xs) h = ap (λ t. x ∷ t) (take_all n xs (omega (arith, h)))

skip_spaces_none : (c : ℕ) (cs : List ℕ) → c ≢ 32 → skip_spaces (c ∷ cs) ≡ c ∷ cs
unfolding skip_spaces
skip_spaces_none c cs n = rw (ne→== c 32 n) refl

-- `export NAME=value` sets the variable to the value, when the name has 1 to 31 characters without
-- `=` or a leading space, and the value at most 127.
pub export-set :
    (c : ℕ) (cs value : List ℕ) (e : Env)
    → c ≢ 32
    → NoEquals (c ∷ cs)
    → length (c ∷ cs) ≤ 31
    → length value ≤ 127
    → export (c ∷ (cs ++ (61 ∷ value))) e ≡ env_set (c ∷ cs) value e
unfolding export export_value
export-set c cs value e n h b d =
    rw
      (
        skip_spaces_none c (cs ++ (61 ∷ value)) n,
        read_name-append 31 (c ∷ cs) value h b,
        take_all 127 value d,
      )
      refl

length-read_name : (room : ℕ) (cs : List ℕ) → length (read_name room cs).0 ≤ room
unfolding read_name
length-read_name room [] = omega arith
length-read_name zero (c ∷ cs) = omega arith
length-read_name (suc room) (c ∷ cs) =
    if-cases (λ (r : List ℕ × List ℕ). length r.0 ≤ suc room) (c == 61) _ _
      (λ h. zero_le (suc room)) (λ h. suc_le _ _ (length-read_name room cs))
  where
    zero_le : (n : ℕ) → 0 ≤ n
    zero_le n = omega arith

    suc_le : (a b : ℕ) → a ≤ b → suc a ≤ suc b
    suc_le a b h = omega arith

-- Every name and value fits its array, with its final zero.
abbrev pub Fits : Env → Type 0
Fits e = (i : ℕ) → i < e.env_count → (length (e.env_names i) ≤ 31) × (length (e.env_values i) ≤ 127)

Sets-Fits :
    (name value : List ℕ) (e r : Env)
    → length name ≤ 31
    → length value ≤ 127
    → Sets name value e r
    → Fits e
    → Fits r
Sets-Fits name value e r a b (full n h q) f = rw q f
Sets-Fits name value e r a b (replaced k h p n q) f = rw q (λ i hi. elim (ℕ_discrete i k) [
  | yes same ↦ ((f i hi).0, rw (eq→== i k same) b)
  | no other ↦ ((f i hi).0, rw (ne→== i k other) (f i hi).1)
])
Sets-Fits name value e r a b (added n h q) f = rw q (λ i hi. elim (ℕ_discrete i e.env_count) [
  | yes same ↦ (rw (eq→== i e.env_count same) a, rw (eq→== i e.env_count same) b)
  | no other ↦
      let old = f i (omega (arith, other, hi)) in
      (rw (ne→== i e.env_count other) old.0, rw (ne→== i e.env_count other) old.1)
])

value-Fits :
    (name rest : List ℕ) (e : Env) → length name ≤ 31 → Fits e → Fits (export_value name rest e)
unfolding export_value
value-Fits name [] e a f = f
value-Fits name (c ∷ value) e a f =
    if-cases Fits (c == 61) _ _
      (λ h. Sets-Fits name (take 127 value) e _ a short (env_set-Sets name (take 127 value) e) f)
      (λ h. f)
  where
    short : length (take 127 value) ≤ 127
    short = omega (arith, length-take 127 value)

-- Whatever is typed after `export`, no name or value overflows its array.
pub export-Fits : (cmd : List ℕ) (e : Env) → Fits e → Fits (export cmd e)
unfolding export
export-Fits cmd e f =
    value-Fits (read_name 31 (skip_spaces cmd)).0 (read_name 31 (skip_spaces cmd)).1 e
      (length-read_name 31 (skip_spaces cmd)) f
