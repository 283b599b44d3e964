-- ===== src/Fat/Table/Update.antt =====
-- `fat_set_next_cluster`: the entry that it names changes, and no other.
use nedoos.Prelude.{
  ℕ, ◌+◌, ◌*◌, ◌/◌, ◌%◌, ◌^◌, ◌<◌, ◌≡◌, ◌≢◌, ◌⊎◌, refl, sym, ◌∙◌, ap, true, false, List, length,
  some, get_or, set, ◌==◌, if◌then◌else◌, IsBytes, arith, length-set, get_or-set_self,
  get_or-set_ne, Bool-cases, inl, inr, ==→eq, ==→ne, ne→==,
}
use nedoos.Drivers.Disk.{Disk}
use nedoos.Fat.Volume.{Volume}
use nedoos.Fat.Table.{set_word, fat_offset, pack, fat_sec, fat_off, fat_set_next_cluster}
use nedoos.Fat.Table.Cut.{entry_in-stored}
use nedoos.Fat.Table.Entry.{Straddles, IsFat12, fat_byte, entry, word_read, fat_sec_lem, fat_sec-lt}

-- A buffer with the two bytes of `x` stored at `off`.
abbrev stored : List ℕ → ℕ → ℕ → List ℕ
stored buf off x = set (set buf off (x % 256)) (off + 1) (x / 256 % 256)

set_word-stored :
    (buf : List ℕ) (off x : ℕ) → off + 1 < length buf → set_word buf off x ≡ some (stored buf off x)
unfolding set_word
set_word-stored buf off x h = ground arith

length-stored : (buf : List ℕ) (off x : ℕ) → length (stored buf off x) ≡ length buf
length-stored buf off x = length-set _ (off + 1) _ ∙ length-set buf off _

get_or-stored :
    (buf : List ℕ) (off x i : ℕ)
    → off + 1 < length buf
    → get_or (stored buf off x) i 0
      ≡ (if i == off + 1 then x / 256 % 256 else if i == off then x % 256 else get_or buf i 0)
get_or-stored buf off x i h = elim (Bool-cases (i == off + 1)) [
  | inl e ↦ rw e (
      rw (==→eq i (off + 1) e)
        (get_or-set_self (set buf off _) (off + 1) _ 0 (rw (length-set buf off _) h)))
  | inr e ↦ rw e (
      get_or-set_ne (set buf off _) (off + 1) i _ 0 (λ q. ==→ne i (off + 1) e (sym q))
      ∙ first (Bool-cases (i == off)))
]
  where
    first :
        ((i == off) ≡ true) ⊎ ((i == off) ≡ false)
        → get_or (set buf off (x % 256)) i 0 ≡ (if i == off then x % 256 else get_or buf i 0)
    first (inl e) = rw e (rw (==→eq i off e) (get_or-set_self buf off _ 0 (omega arith)))
    first (inr e) = rw e (get_or-set_ne buf off i _ 0 (λ q. ==→ne i off e (sym q)))

stored-IsBytes :
    (buf : List ℕ) (off x : ℕ)
    → off + 1 < length buf
    → IsBytes (λ i. get_or buf i 0)
    → IsBytes (λ i. get_or (stored buf off x) i 0)
stored-IsBytes buf off x h b i = ground (arith, get_or-stored buf off x i h, b i)

module _ {W : Type 0} (d : Disk W) (v : Volume) where
  -- The word that holds the cluster's entry, and what is stored in its place.
  abbrev old_word : W → ℕ → ℕ
  old_word w c = fat_byte d v w (fat_offset c) + 256 * fat_byte d v w (fat_offset c + 1)

  -- The state after the call: one sector is written.
  abbrev after_set : ℕ → ℕ → W → W
  after_set c next w =
      let r = d.ata_read (fat_sec d v c) w in
      (d.ata_write (fat_sec d v c) (stored r.1 (fat_off d v c) (pack c (old_word w c) next)) r.2).1

module _ {W : Type 0} (d : Disk W) (v : Volume) (f : IsFat12 v) where
  open f use {whole_sector, low}

  set-returns :
      (c next : ℕ) (w : W)
      → c < 65536
      → ¬ Straddles c
      → fat_set_next_cluster d v c next w ≡ some (after_set d v c next w)
  unfolding fat_set_next_cluster
  set-returns c next w h s = ground (
    arith,
    whole_sector,
    word_read d v f c w h s,
    set_word-stored (d.ata_read (fat_sec d v c) w).1 (fat_off d v c)
        (pack c (old_word d v w c) next),
    ap length (d.read_buffer (fat_sec d v c) w (fat_sec-lt d v f c h)),
    d.sector_size w (fat_sec d v c),
  )

  sector-after_set :
      (c next n : ℕ) (w : W)
      → c < 65536
      → ¬ Straddles c
      → d.sector (after_set d v c next w) n ≡ (
          if n == fat_sec d v c
          then stored (d.sector w (fat_sec d v c)) (fat_off d v c) (pack c (old_word d v w c) next)
          else d.sector w n)
  sector-after_set c next n w h s =
      d.write_sector sec n _ _ lt (length-stored _ off x ∙ size) (stored-IsBytes _ off x fits bytes)
      ∙ rw (buffer, d.read_keeps sec n w)
    where
      sec : ℕ
      sec = fat_sec d v c

      off : ℕ
      off = fat_off d v c

      x : ℕ
      x = pack c (old_word d v w c) next

      lt : sec < 2 ^ 28
      lt = fat_sec-lt d v f c h

      buffer : (d.ata_read sec w).1 ≡ d.sector w sec
      buffer = d.read_buffer sec w lt

      size : length (d.ata_read sec w).1 ≡ 512
      size = rw buffer (d.sector_size w sec)

      fits : off + 1 < length (d.ata_read sec w).1
      fits = rw (size, whole_sector) (omega arith)

      bytes : IsBytes (λ i. get_or (d.ata_read sec w).1 i 0)
      bytes = rw buffer (d.sector-IsBytes w sec)

  -- In the sequence of the table's bytes two neighbours change.
  fat_byte-after_set :
      (c next n : ℕ) (w : W)
      → c < 65536
      → ¬ Straddles c
      → let o = fat_offset c in
        let x = pack c (old_word d v w c) next in
        fat_byte d v (after_set d v c next w) n
        ≡ (if n == o + 1 then x / 256 % 256 else if n == o then x % 256 else fat_byte d v w n)
  fat_byte-after_set c next n w h s =
      ap (λ buf. get_or buf (n % 512) 0) (sector-after_set c next (v.fat_sector + n / 512) w h s)
      ∙ elim (Bool-cases (v.fat_sector + n / 512 == fat_sec d v c)) [
        | inl e ↦ rw e (inside (==→eq _ _ e ∙ fat_sec_lem d v f c h))
        | inr e ↦ rw e (ground (arith, fat_sec_lem d v f c h))
      ]
    where
      x : ℕ
      x = pack c (old_word d v w c) next

      inside :
          v.fat_sector + n / 512 ≡ v.fat_sector + fat_offset c / 512
          → get_or (stored (d.sector w (fat_sec d v c)) (fat_off d v c) x) (n % 512) 0 ≡ (
              if n == fat_offset c + 1
              then x / 256 % 256
              else if n == fat_offset c
              then x % 256
              else fat_byte d v w n)
      inside e =
          let fits : fat_off d v c + 1 < length (d.sector w (fat_sec d v c)) =
            rw (d.sector_size w _, whole_sector) (omega arith) in
          let off : fat_off d v c ≡ fat_offset c % 512 = rw whole_sector refl in
          ground (
            arith,
            get_or-stored (d.sector w (fat_sec d v c)) (fat_off d v c) x (n % 512) fits,
            ap (λ (k : ℕ). get_or (d.sector w k) (n % 512) 0) (fat_sec_lem d v f c h ∙ sym e),
          )

  pub fat_set_next_cluster_lem :
      (c next : ℕ) (w : W)
      → c < 65536
      → ¬ Straddles c
      → next < 4096
      → (w' : W) × (fat_set_next_cluster d v c next w ≡ some w')
        × ((e : ℕ) → entry d v w' e ≡ (if e == c then next else entry d v w e))
        × ((n : ℕ) → n ≢ fat_sec d v c → d.sector w' n ≡ d.sector w n)
  fat_set_next_cluster_lem c next w h s p = (
    after_set d v c next w,
    set-returns c next w h s,
    entry_in-stored (fat_byte d v w) (fat_byte d v (after_set d v c next w)) c next
        (pack c (old_word d v w c) next) (λ n. d.sector-IsBytes w _ _) p refl
        (λ n. fat_byte-after_set c next n w h s),
    λ n ne. sector-after_set c next n w h s ∙ rw (ne→== n _ ne) refl,
  )
