-- ===== src/Arch/Gdt.antt =====
-- kernel/arch/i386/gdt.c: the descriptors of the segments.
use nedoos.Prelude.{ℕ, ◌+◌, ◌-◌, ◌*◌, ◌/◌, ◌%◌, ◌^◌, ◌≡◌, refl, update, if◌then◌else◌, ◌==◌}

pub record GdtEntry : Type 0 where
  pub limit_low : ℕ
  pub base_low : ℕ
  pub base_middle : ℕ
  pub access : ℕ
  pub granularity : ℕ
  pub base_high : ℕ

-- The table of five, and what `gdt_flush` is given.
pub record Gdt : Type 0 where
  pub gdt : ℕ → GdtEntry
  pub limit : ℕ
  pub base : ℕ

abbrev pub null_descriptor : GdtEntry
null_descriptor = record {
  limit_low = 0;
  base_low = 0;
  base_middle = 0;
  access = 0;
  granularity = 0;
  base_high = 0;
}

-- Base 0 and a limit of 4 GB.
abbrev pub flat : ℕ → GdtEntry
flat access = record {
  limit_low = 0xffff;
  base_low = 0;
  base_middle = 0;
  access = access;
  granularity = 0xcf;
  base_high = 0;
}

-- An entry has 8 bytes.
pub gdt_install : ℕ → Gdt → Gdt
gdt_install address g = record {
  gdt = update (update (update g.gdt 0 null_descriptor) 1 (flat 0x9a)) 2 (flat 0x92);
  limit = 8 * 5 - 1;
  base = address;
}

-- What the processor reads: the first address of a segment, and the last one, in pages of 4096
-- bytes if the top bit of `granularity` says so.
pub segment_base : GdtEntry → ℕ
segment_base e = e.base_low + e.base_middle * 2 ^ 16 + e.base_high * 2 ^ 24

pub segment_limit : GdtEntry → ℕ
segment_limit e =
    let limit = e.limit_low + e.granularity % 2 ^ 4 * 2 ^ 16 in
    if e.granularity / 2 ^ 7 == 0 then limit else limit * 4096 + 4095

pub record IsFlat (e : GdtEntry) : Type 0 where
  pub base : segment_base e ≡ 0
  pub limit : segment_limit e ≡ 2 ^ 32 - 1

gdt_install-IsFlat :
    (address : ℕ) (g : Gdt)
    → IsFlat ((gdt_install address g).gdt 1) × IsFlat ((gdt_install address g).gdt 2)
unfolding gdt_install segment_base segment_limit
gdt_install-IsFlat address g =
    (record { base = refl; limit = refl }, record { base = refl; limit = refl })
