-- ===== src/Shell/Env.antt =====
-- kernel/kernel.c: the environment variables, and the command `export`.
pub mod Lookup
pub mod Export
use nedoos.Prelude.{
  ℕ, zero, suc, ◌+◌, Bool, not, ◌||◌, List, [], ◌∷◌, Option, none, some, update, take, ltb, ◌==◌,
  if◌then◌else◌,
}
use nedoos.Task.Search.{first_from}
use nedoos.Shell.Strings.{strcmp_zero}

abbrev pub max_env : ℕ
max_env = 32

pub record Env : Type 0 where
  pub env_names : ℕ → List ℕ
  pub env_values : ℕ → List ℕ
  pub env_count : ℕ

abbrev pub is_named : Env → List ℕ → ℕ → Bool
is_named e name i = strcmp_zero (e.env_names i) name

-- Where the search for the name ends.
pub find : Env → List ℕ → Option ℕ
find e name = first_from (is_named e name) e.env_count 0

-- What follows the search.
pub put : List ℕ → List ℕ → Env → Option ℕ → Env
put name value e (some i) = record e { env_values = update e.env_values i value }
put name value e none =
    if ltb e.env_count max_env
    then record {
      env_names = update e.env_names e.env_count name;
      env_values = update e.env_values e.env_count value;
      env_count = e.env_count + 1;
    }
    else e

pub env_set : List ℕ → List ℕ → Env → Env
unfolding find put
env_set name value e = put name value e (find e name)

pub skip_spaces : List ℕ → List ℕ
skip_spaces [] = []
skip_spaces (c ∷ cs) = let rest = skip_spaces cs in if c == 32 then rest else c ∷ cs

-- The name up to `=`, of at most `room` characters, and what follows it.
pub read_name : ℕ → List ℕ → List ℕ × List ℕ
read_name room [] = ([], [])
read_name zero (c ∷ cs) = ([], c ∷ cs)
read_name (suc room) (c ∷ cs) =
    let rest = read_name room cs in if c == 61 then ([], c ∷ cs) else (c ∷ rest.0, rest.1)

-- What follows the name. Without `=` the usage is printed.
pub export_value : List ℕ → List ℕ → Env → Env
export_value name [] e = e
export_value name (c ∷ value) e = if c == 61 then env_set name (take 127 value) e else e

pub export : List ℕ → Env → Env
unfolding skip_spaces read_name export_value
export cmd e = let r = read_name 31 (skip_spaces cmd) in export_value r.0 r.1 e
