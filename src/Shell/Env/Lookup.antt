-- ===== src/Shell/Env/Lookup.antt =====
-- The environment as a partial map from names to values.
use nedoos.Prelude.{
  ℕ, ◌+◌, ◌≤◌, ◌<◌, ◌≡◌, ◌≢◌, ◌⊎◌, inl, inr, refl, sym, ap, ◌∙◌, true, false, List, Option, none,
  some, update, ltb, arith, ne→==, eq→==, ℕ_discrete, subst, Bool-cases,
}
use nedoos.Task.Search.{FirstResult, found, missed, first_from-result}
use nedoos.Shell.Strings.{strcmp_zero, strcmp_zero-eq, strcmp_zero_same}
use nedoos.Shell.Env.{Env, max_env, is_named, find, put, env_set}

-- `name` has the value `value`: the first entry of that name holds it.
pub record Has (e : Env) (name value : List ℕ) : Type 0 where
  pub index : ℕ
  pub in_range : index < e.env_count
  pub named : e.env_names index ≡ name
  pub first : (j : ℕ) → j < index → e.env_names j ≢ name
  pub holds : e.env_values index ≡ value

-- What the search finds.
pub data Found (e : Env) (name : List ℕ) (r : Option ℕ) : Type 0 where
  at :
      (i : ℕ)
      → i < e.env_count
      → e.env_names i ≡ name
      → ((j : ℕ) → j < i → e.env_names j ≢ name)
      → r ≡ some i
      → Found e name r
  nowhere : ((j : ℕ) → j < e.env_count → e.env_names j ≢ name) → r ≡ none → Found e name r

pub differs : (a b : List ℕ) → strcmp_zero a b ≡ false → a ≢ b
differs a b h q =
    let same : strcmp_zero a b ≡ true =
      subst (λ x. strcmp_zero a x ≡ true) q (strcmp_zero_same a) in
    cc

find-Found : (e : Env) (name : List ℕ) → Found e name (find e name)
unfolding find
find-Found e name =
    read _ (first_from-result (is_named e name) e.env_count 0 e.env_count (omega arith))
  where
    read : (r : Option ℕ) → FirstResult (is_named e name) 0 e.env_count r → Found e name r
    read r (found k a b p n q) =
        at k b (strcmp_zero-eq _ _ p) (λ j h. differs _ _ (n j (omega arith) h)) q
    read r (missed n q) = nowhere (λ j h. differs _ _ (n j (omega arith) h)) q

-- What `env_set` does: a variable that is there gets the value in its place; another one is put at
-- the end if there is room.
pub data Sets (name value : List ℕ) (e : Env) (r : Env) : Type 0 where
  replaced :
      (i : ℕ)
      → i < e.env_count
      → e.env_names i ≡ name
      → ((j : ℕ) → j < i → e.env_names j ≢ name)
      → r ≡ record e { env_values = update e.env_values i value }
      → Sets name value e r
  added :
      ((j : ℕ) → j < e.env_count → e.env_names j ≢ name)
      → e.env_count < max_env
      → r ≡ record {
        env_names = update e.env_names e.env_count name;
        env_values = update e.env_values e.env_count value;
        env_count = e.env_count + 1;
      }
      → Sets name value e r
  full :
      ((j : ℕ) → j < e.env_count → e.env_names j ≢ name)
      → max_env ≤ e.env_count
      → r ≡ e
      → Sets name value e r

put-Sets :
    (name value : List ℕ) (e : Env) (r : Option ℕ)
    → Found e name r
    → Sets name value e (put name value e r)
unfolding put
put-Sets name value e r (at i h p n q) = replaced i h p n (ap (put name value e) q)
put-Sets name value e r (nowhere n q) = elim (Bool-cases (ltb e.env_count max_env)) [
  | inl room ↦ added n (ground (arith, room)) (ap (put name value e) q ∙ rw room refl)
  | inr none_left ↦ full n (ground (arith, none_left)) (ap (put name value e) q ∙ rw none_left refl)
]

pub env_set-Sets : (name value : List ℕ) (e : Env) → Sets name value e (env_set name value e)
unfolding env_set
env_set-Sets name value e = put-Sets name value e _ (find-Found e name)

-- The variables have distinct names, and there are at most 32 of them.
pub record IsMap (e : Env) : Type 0 where
  pub bound : e.env_count ≤ max_env
  pub distinct :
      (i j : ℕ) → i < e.env_count → j < e.env_count → e.env_names i ≡ e.env_names j → i ≡ j

Sets-IsMap : (name value : List ℕ) (e r : Env) → IsMap e → Sets name value e r → IsMap r
Sets-IsMap name value e r m (replaced i h p n q) =
    rw q (record { bound = m.bound; distinct = m.distinct })
Sets-IsMap name value e r m (full n h q) = rw q m
Sets-IsMap name value e r m (added n h q) =
    rw q (record { bound = omega (arith, h); distinct = λ i j hi hj t. pair i j hi hj t })
  where
    names : ℕ → List ℕ
    names = update e.env_names e.env_count name

    last : names e.env_count ≡ name
    last = rw (eq→== e.env_count e.env_count refl) refl

    old : (i : ℕ) → i ≢ e.env_count → names i ≡ e.env_names i
    old i d = rw (ne→== i e.env_count d) refl

    pair : (i j : ℕ) → i < e.env_count + 1 → j < e.env_count + 1 → names i ≡ names j → i ≡ j
    pair i j hi hj t = elim (ℕ_discrete i e.env_count) [
      | yes a ↦ elim (ℕ_discrete j e.env_count) [
        | yes b ↦ omega arith
        | no b ↦ absurd (n j (omega arith) (sym (old j b) ∙ sym t ∙ ap names a ∙ last))
      ]
      | no a ↦ elim (ℕ_discrete j e.env_count) [
        | yes b ↦ absurd (n i (omega arith) (sym (old i a) ∙ t ∙ ap names b ∙ last))
        | no b ↦ m.distinct i j (omega arith) (omega arith) (sym (old i a) ∙ t ∙ old j b)
      ]
    ]

-- Setting variables keeps their names distinct and their number within 32.
pub env_set-IsMap : (name value : List ℕ) (e : Env) → IsMap e → IsMap (env_set name value e)
env_set-IsMap name value e m = Sets-IsMap name value e _ m (env_set-Sets name value e)

Sets-Has :
    (name value : List ℕ) (e r : Env)
    → Sets name value e r
    → Has r name value ⊎ ((max_env ≤ e.env_count) × (r ≡ e))
Sets-Has name value e r (replaced i h p n q) = inl (
    rw q
      (record { index = i; in_range = h; named = p; first = n; holds = rw (eq→== i i refl) refl }))
Sets-Has name value e r (full n h q) = inr (h, q)
Sets-Has name value e r (added n h q) = inl (
    rw q (record {
      index = e.env_count;
      in_range = omega arith;
      named = rw (eq→== e.env_count e.env_count refl) refl;
      first = λ j b t. n j b (sym (rw (ne→== j e.env_count (omega (arith, b))) refl) ∙ t);
      holds = rw (eq→== e.env_count e.env_count refl) refl;
    }))

Sets-others :
    (name value other v : List ℕ) (e r : Env)
    → Sets name value e r
    → other ≢ name
    → Has e other v
    → Has r other v
Sets-others name value other v e r (replaced i h p n q) d k =
    let away : k.index ≢ i = λ t. d (sym k.named ∙ ap e.env_names t ∙ p) in
    rw q (record {
      index = k.index;
      in_range = k.in_range;
      named = k.named;
      first = k.first;
      holds = rw (ne→== k.index i away) k.holds;
    })
Sets-others name value other v e r (full n h q) d k = rw q k
Sets-others name value other v e r (added n h q) d k =
    let away : k.index ≢ e.env_count = omega (arith, k.in_range) in
    let inside : k.index < e.env_count = k.in_range in
    rw q (record {
      index = k.index;
      in_range = omega (arith, k.in_range);
      named = rw (ne→== k.index e.env_count away) k.named;
      first =
          λ j b t. k.first j b (sym (rw (ne→== j e.env_count (omega (arith, b, inside))) refl) ∙ t);
      holds = rw (ne→== k.index e.env_count away) k.holds;
    })

Sets-count : (name value : List ℕ) (e r : Env) → Sets name value e r → r.env_count ≤ e.env_count + 1
Sets-count name value e r (replaced i h p n q) = rw q (omega arith)
Sets-count name value e r (added n h q) = rw q (omega arith)
Sets-count name value e r (full n h q) = rw q (omega arith)

-- At most one place more is taken.
pub env_set-count :
    (name value : List ℕ) (e : Env) → (env_set name value e).env_count ≤ e.env_count + 1
env_set-count name value e = Sets-count name value e _ (env_set-Sets name value e)

pub env_set_lookup :
    (name value : List ℕ) (e : Env)
    → (Has (env_set name value e) name value
        ⊎ ((max_env ≤ e.env_count) × (env_set name value e ≡ e)))
      × ((other v : List ℕ) → other ≢ name → Has e other v → Has (env_set name value e) other v)
env_set_lookup name value e = (
  Sets-Has name value e _ (env_set-Sets name value e),
  λ other v d k. Sets-others name value other v e _ (env_set-Sets name value e) d k,
)
