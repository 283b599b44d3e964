-- ===== src/Boot/Variables.antt =====
-- The three variables that the start sets.
use nedoos.Prelude.{ℕ, ◌+◌, ◌≤◌, ◌<◌, ◌≡◌, inl, inr, refl, false, List, arith}
use nedoos.Shell.Env.{Env, max_env, env_set}
use nedoos.Shell.Env.Lookup.{Has, differs, env_set-count, env_set_lookup}
use nedoos.Shell.Strings.{strcmp_zero}
use nedoos.Boot.{path_name, home_name, user_name, root, user, set_variables}

-- With room for it the variable is set.
room-Has :
    (name value : List ℕ) (e : Env) → e.env_count < max_env → Has (env_set name value e) name value
room-Has name value e h = elim (env_set_lookup name value e).0 [
  | inl has ↦ has
  | inr full ↦ absurd (omega (arith, h, full.0))
]

keeps-Has :
    (name value other v : List ℕ) (e : Env)
    → strcmp_zero other name ≡ false
    → Has e other v
    → Has (env_set name value e) other v
keeps-Has name value other v e h k = (env_set_lookup name value e).1 other v (differs _ _ h) k

pub record HasVariables (e : Env) : Type 0 where
  pub path : Has e path_name root
  pub home : Has e home_name root
  pub user : Has e user_name user

pub set_variables-HasVariables :
    (e : Env) → e.env_count + 3 ≤ max_env → HasVariables (set_variables e)
unfolding set_variables strcmp_zero
set_variables-HasVariables e h =
    let e1 = env_set path_name root e in
    let e2 = env_set home_name root e1 in
    let b1 = env_set-count path_name root e in
    let b2 = env_set-count home_name root e1 in
    let path1 = room-Has path_name root e (omega (arith, h)) in
    let home2 = room-Has home_name root e1 (omega (arith, h, b1)) in
    record {
      path =
          keeps-Has user_name user path_name root e2 refl
            (keeps-Has home_name root path_name root e1 refl path1);
      home = keeps-Has user_name user home_name root e2 refl home2;
      user = room-Has user_name user e2 (omega (arith, h, b1, b2));
    }
