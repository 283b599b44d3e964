-- ===== src/Fat/Files/Directory.antt =====
-- kernel/kernel.c: `fat_entry_t`, and the search of `cat` and `cd` for an entry.
pub mod Search
use nedoos.Prelude.{
  ℕ, zero, suc, ◌+◌, ◌-◌, ◌*◌, ◌≤◌, ◌<◌, ◌≡◌, ◌≢◌, refl, sym, ap, ◌∙◌, subst, Bool, true, false,
  not, ◌&&◌, List, [], ◌∷◌, ◌++◌, length, take, drop, Option, none, some, ◌>>=◌, get_or, bit_and,
  ltb, leb, ◌==◌, if◌then◌else◌, arith, Bool-cases, inl, inr, ℕ_discrete,
}

-- The fields that the code uses.
pub record Entry : Type 0 where
  pub name : List ℕ
  pub ext : List ℕ
  pub attr : ℕ
  pub cluster : ℕ
  pub size : ℕ

abbrev word16 : List ℕ → ℕ → ℕ
word16 sec off = get_or sec off 0 + 256 * get_or sec (off + 1) 0

abbrev pub read_entry : List ℕ → ℕ → Entry
read_entry sec i = record {
  name = take 8 (drop (32 * i) sec);
  ext = take 3 (drop (32 * i + 8) sec);
  attr = get_or sec (32 * i + 11) 0;
  cluster = word16 sec (32 * i + 26);
  size = word16 sec (32 * i + 28) + 65536 * word16 sec (32 * i + 30);
}

-- The 32 bytes of the entry; a fault if they are not in the buffer.
unfoldable pub entry_at : List ℕ → ℕ → Option Entry
entry_at sec i = if leb (32 * i + 32) (length sec) then some (read_entry sec i) else none

-- e->attr & ATTR_DIRECTORY
abbrev pub is_directory : Entry → Bool
is_directory e = not (bit_and e.attr 0x10 == 0)

abbrev pub is_end : Entry → Bool
is_end e = get_or e.name 0 0 == 0

abbrev pub is_deleted : Entry → Bool
is_deleted e = get_or e.name 0 0 == 0xe5

-- for (j = 0; name[j] != ' '; j++), within the field
abbrev pub until_space : List ℕ → List ℕ
until_space [] = []
until_space (c ∷ cs) = if c == 32 then [] else c ∷ until_space cs

-- NAME.EXT, or NAME when the extension begins with a space
abbrev pub full_name : Entry → List ℕ
full_name e = until_space e.name ++ (if get_or e.ext 0 0 == 32 then [] else 46 ∷ until_space e.ext)

-- The loop that compares, character by character.
abbrev pub is_prefix : List ℕ → List ℕ → Bool
is_prefix [] ds = true
is_prefix (c ∷ cs) [] = false
is_prefix (c ∷ cs) (d ∷ ds) = (c == d) && is_prefix cs ds

-- if (c >= 'a' && c <= 'z') c -= 32
abbrev pub upper : List ℕ → List ℕ
upper [] = []
upper (c ∷ cs) = (if leb 97 c && leb c 122 then c - 32 else c) ∷ upper cs

-- for (i = ...; i < entries_per_sector; i++), with `n` rounds left: the first entry that passes the
-- test before the end of the directory.
unfoldable pub find_entry : (Entry → Bool) → List ℕ → ℕ → ℕ → Option (Option Entry)
unfolding entry_at
find_entry test sec zero i = some none
find_entry test sec (suc n) i = entry_at sec i >>= λ e.
    let rest = find_entry test sec n (i + 1) in
    if is_end e
    then some none
    else if is_deleted e
    then rest
    else if test e
    then some (some e)
    else rest
