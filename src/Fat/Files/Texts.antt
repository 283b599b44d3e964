-- ===== src/Fat/Files/Texts.antt =====
-- kernel/kernel.c: the texts that the file commands print.
use nedoos.Prelude.{ℕ, List, [], ◌∷◌}

-- \nMounting...\n
abbrev pub mounting : List ℕ
mounting = 10 ∷ 77 ∷ 111 ∷ 117 ∷ 110 ∷ 116 ∷ 105 ∷ 110 ∷ 103 ∷ 46 ∷ 46 ∷ 46 ∷ 10 ∷ []

-- OK\n
abbrev pub ok : List ℕ
ok = 79 ∷ 75 ∷ 10 ∷ []

-- Not FAT\n
abbrev pub not_fat : List ℕ
not_fat = 78 ∷ 111 ∷ 116 ∷ 32 ∷ 70 ∷ 65 ∷ 84 ∷ 10 ∷ []

-- ERR\n
abbrev pub read_error : List ℕ
read_error = 69 ∷ 82 ∷ 82 ∷ 10 ∷ []

-- mount first\n
abbrev pub mount_first : List ℕ
mount_first = 109 ∷ 111 ∷ 117 ∷ 110 ∷ 116 ∷ 32 ∷ 102 ∷ 105 ∷ 114 ∷ 115 ∷ 116 ∷ 10 ∷ []

-- Use: cat filename\n
abbrev pub use_cat : List ℕ
use_cat =
    85 ∷ 115 ∷ 101 ∷ 58 ∷ 32 ∷ 99 ∷ 97 ∷ 116 ∷ 32 ∷ 102 ∷ 105 ∷ 108 ∷ 101 ∷ 110 ∷ 97 ∷ 109 ∷ 101
    ∷ 10 ∷ []

-- Not found\n
abbrev pub not_found : List ℕ
not_found = 78 ∷ 111 ∷ 116 ∷ 32 ∷ 102 ∷ 111 ∷ 117 ∷ 110 ∷ 100 ∷ 10 ∷ []

-- Directory not found\n
abbrev pub no_directory : List ℕ
no_directory =
    68 ∷ 105 ∷ 114 ∷ 101 ∷ 99 ∷ 116 ∷ 111 ∷ 114 ∷ 121 ∷ 32 ∷ 110 ∷ 111 ∷ 116 ∷ 32 ∷ 102 ∷ 111 ∷ 117
    ∷ 110 ∷ 100 ∷ 10 ∷ []

--   <DIR>
abbrev pub dir_mark : List ℕ
dir_mark = 32 ∷ 32 ∷ 60 ∷ 68 ∷ 73 ∷ 82 ∷ 62 ∷ []

--  (
abbrev pub open_size : List ℕ
open_size = 32 ∷ 40 ∷ []

-- )\n
abbrev pub close_size : List ℕ
close_size = 41 ∷ 10 ∷ []

-- \n=== EDITOR ===\n
abbrev pub editor_title : List ℕ
editor_title = 10 ∷ 61 ∷ 61 ∷ 61 ∷ 32 ∷ 69 ∷ 68 ∷ 73 ∷ 84 ∷ 79 ∷ 82 ∷ 32 ∷ 61 ∷ 61 ∷ 61 ∷ 10 ∷ []

-- Ctrl+S - save, Ctrl+Q - quit\n
abbrev pub editor_keys : List ℕ
editor_keys =
    67 ∷ 116 ∷ 114 ∷ 108 ∷ 43 ∷ 83 ∷ 32 ∷ 45 ∷ 32 ∷ 115 ∷ 97 ∷ 118 ∷ 101 ∷ 44 ∷ 32 ∷ 67 ∷ 116 ∷ 114
    ∷ 108 ∷ 43 ∷ 81 ∷ 32 ∷ 45 ∷ 32 ∷ 113 ∷ 117 ∷ 105 ∷ 116 ∷ 10 ∷ []

-- \nNot mounted\n
abbrev pub not_mounted : List ℕ
not_mounted = 10 ∷ 78 ∷ 111 ∷ 116 ∷ 32 ∷ 109 ∷ 111 ∷ 117 ∷ 110 ∷ 116 ∷ 101 ∷ 100 ∷ 10 ∷ []

-- \nSaved\n
abbrev pub saved_text : List ℕ
saved_text = 10 ∷ 83 ∷ 97 ∷ 118 ∷ 101 ∷ 100 ∷ 10 ∷ []
