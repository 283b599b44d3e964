-- ===== src/Fat/Editor.antt =====
-- kernel/kernel.c: `edit`, a text of at most 4095 characters that is saved in a cluster.
-- What `print(buffer)` shows of the text that was loaded is not part of the state.
pub mod Typing
pub mod Save
mod Tests
use nedoos.Prelude.{
  ℕ, zero, suc, ◌+◌, ◌-◌, ◌*◌, ◌/◌, Bool, true, false, not, ◌&&◌, List, [], ◌∷◌, length, take,
  Option, none, some, ◌>>=◌, Array, update, get_or, ltb, leb, ◌==◌, if◌then◌else◌, u8, min,
}
use nedoos.Drivers.Disk.{Disk}
use nedoos.Console.{putchar}
use nedoos.Fat.Volume.{Volume}
use nedoos.Fat.Table.{fat_alloc_cluster}
use nedoos.Fat.Files.{Files, say, dir_sector, cat_sector}
use nedoos.Fat.Files.Texts.{editor_title, editor_keys, not_mounted, saved_text}
use nedoos.Fat.Files.Directory.{Entry, full_name, is_prefix, upper, find_entry}

pub record Editor (W : Type 0) : Type 0 where
  pub files : Files W
  pub buffer : Array
  pub pos : ℕ

-- A step of the loop goes on or ends it.
pub data Step (W : Type 0) : Type 0 where
  again : Editor W → Step W
  quit : Editor W → Step W

-- The test of the search: the whole name, of a file or of a directory.
pub is_exact : List ℕ → Entry → Bool
is_exact search e = is_prefix search (full_name e) && (length search == length (full_name e))

-- for (i = 0; i < size && i < 4096; i++) buffer[i] = sec[i]; a fault if that reads past `sec`.
pub fill_buffer : List ℕ → ℕ → Array → Option Array
fill_buffer sec n buffer =
    if leb n (length sec) then some (λ i. if ltb i n then get_or sec i 0 else buffer i) else none

-- The 512 bytes that are written: the text, and zeros behind it.
pub sector_from : ℕ → ℕ → ℕ → Array → List ℕ
sector_from zero i pos buffer = []
sector_from (suc n) i pos buffer =
    (if ltb i pos then u8 (buffer i) else 0) ∷ sector_from n (i + 1) pos buffer

module _ {W : Type 0} (d : Disk W) where
  -- A cluster 0 counts as not found. The status of the second read is not looked at.
  pub load_entry : Option Entry → Editor W → Option (Editor W)
  unfolding fill_buffer
  load_entry none s = some s
  load_entry (some e) s =
      let r = d.ata_read (cat_sector s.files.volume e.cluster) s.files.disk in
      if e.cluster == 0
      then some s
      else (fill_buffer r.1 (min e.size 4096) s.buffer >>= λ buffer.
          some (record { files = record (s.files) { disk = r.2 }; buffer = buffer; pos = e.size }))

  pub load : List ℕ → Editor W → Option (Editor W)
  unfolding is_exact load_entry
  load filename s =
      let r = d.ata_read (dir_sector s.files.volume) s.files.disk in
      let s' = record s { files = record (s.files) { disk = r.2 } } in
      if not (r.0 == 0)
      then some s'
      else (find_entry (is_exact (upper (take 12 filename))) r.1
            (s.files.volume.bytes_per_sector / 32) 0
          >>= λ e. load_entry e s')

  -- `pos` is 0 at first; the buffer is not set.
  pub open_file : List ℕ → Files W → Array → Option (Editor W)
  unfolding load
  open_file filename files buffer =
      let s : Editor W = record {
        files = say d editor_keys (say d editor_title files);
        buffer = buffer;
        pos = 0;
      } in
      if files.volume.mounted then load filename s else some s

  -- What follows the allocation of a cluster; 0 is none.
  pub write_text : Editor W → ℕ → W → Editor W
  unfolding sector_from
  write_text s cluster w =
      let r =
        d.ata_write (cat_sector s.files.volume cluster) (sector_from 512 0 s.pos s.buffer) w in
      if cluster == 0
      then record s { files = record (s.files) { disk = w } }
      else record s { files = say d saved_text (record (s.files) { disk = r.1 }) }

  pub save : Editor W → Option (Editor W)
  unfolding write_text
  save s =
      if not s.files.volume.mounted
      then some (record s { files = say d not_mounted s.files })
      else (fat_alloc_cluster d s.files.volume s.files.disk >>= λ r. some (write_text s r.0 r.1))

  abbrev pub show : ℕ → Files W → Files W
  show c files = record files { console = putchar c files.console }

  -- A round of the loop, for a character and whether Ctrl is held.
  pub edit_key : ℕ → Bool → Editor W → Option (Step W)
  unfolding save
  edit_key c ctrl s =
      if (c == 0x13) && ctrl
      then (save s >>= λ s'. some (again s'))
      else if (c == 0x11) && ctrl
      then some (quit (record s { files = say d (10 ∷ []) s.files }))
      else if (c == 8) && ltb 0 s.pos
      then some (again (record s { files = show 8 s.files; pos = s.pos - 1 }))
      else if leb 32 c && leb c 126 && ltb s.pos 4095
      then some (
          again
            (record { files = show c s.files; buffer = update s.buffer s.pos c; pos = s.pos + 1 }))
      else some (again s)

  pub edit_keys : List (ℕ × Bool) → Editor W → Option (Step W)
  unfolding edit_key
  edit_keys [] s = some (again s)
  edit_keys (k ∷ ks) s =
      edit_key k.0 k.1 s >>= λ r. elim r [ again s' ↦ edit_keys ks s' | quit s' ↦ some (quit s') ]
