-- ===== src/Arch/Pic/Masks.antt =====
-- What the calls leave in the two controllers.
use nedoos.Prelude.{
  ℕ, ◌-◌, ◌^◌, ◌<◌, ◌≡◌, refl, ap, ◌∙◌, Bool, true, false, [], u8, ltb, ◌==◌, if◌then◌else◌,
  bit_and, bit_or, arith, Bool-cases, inl, inr,
}
use nedoos.Drivers.Ata.{Ports}
use nedoos.Memory.Pmm.Bitmap.{bit_of, bit_of_or, bit_of_and}
use nedoos.Arch.Pic.{pic_remap, pic_set_mask, pic_clear_mask, data_port, line_of}
use nedoos.Arch.Pic.Chip.{Chip, IsWired, write_data}

-- An operating chip with the given offset and mask.
abbrev pub operating : ℕ → ℕ → Chip
operating offset mask = record { stage = 0; offset = offset; mask = mask; in_service = [] }

-- In operation, with a mask of eight bits.
pub record IsOperating (c : Chip) : Type 0 where
  pub stage : c.stage ≡ 0
  pub byte : c.mask < 256

-- Whether an interrupt is held back.
pub masked : Chip → Chip → ℕ → Bool
masked master slave i = if ltb i 8 then bit_of master.mask i else bit_of slave.mask (i - 8)

write-operating : (v : ℕ) (c : Chip) → IsOperating c → (write_data v c).mask ≡ v
write-operating v c o = rw o.stage refl

module _ {W : Type 0} (p : Ports W) (master slave : W → Chip) (h : IsWired p master slave) where
  -- `pic_remap` leaves both controllers in operation, at the offsets that it is given, with the
  -- masks that they had and no interrupt in service.
  pub pic_remap_lem :
      (offset1 offset2 : ℕ) (w : W)
      → (master (pic_remap p offset1 offset2 w) ≡ operating (u8 offset1) (master w).mask)
        × (slave (pic_remap p offset1 offset2 w) ≡ operating (u8 offset2) (slave w).mask)
  unfolding pic_remap
  pic_remap_lem offset1 offset2 w =
      simp
        (
          h.master_command, h.master_data, h.slave_command, h.slave_data, h.slave_command_keeps,
          h.slave_data_keeps, h.master_command_keeps, h.master_data_keeps, h.read_master,
          h.read_slave,
        )
        (refl, refl)

  data_port-masks :
      (irq v : ℕ) (w : W)
      → IsOperating (master w)
      → IsOperating (slave w)
      → ((master (p.outb (data_port irq) v w)).mask ≡ (if ltb irq 8 then v else (master w).mask))
        × ((slave (p.outb (data_port irq) v w)).mask ≡ (if ltb irq 8 then (slave w).mask else v))
  data_port-masks irq v w m s = elim (Bool-cases (ltb irq 8)) [
    | inl low ↦ rw low (
      ap (λ (c : Chip). c.mask) (h.master_data v w) ∙ write-operating v (master w) m,
      ap (λ (c : Chip). c.mask) (h.master_data_keeps v w),
    )
    | inr high ↦ rw high (
      ap (λ (c : Chip). c.mask) (h.slave_data_keeps v w),
      ap (λ (c : Chip). c.mask) (h.slave_data v w) ∙ write-operating v (slave w) s,
    )
  ]

  data_port-read :
      (irq : ℕ) (w : W)
      → p.inb (data_port irq) w ≡ ((if ltb irq 8 then (master w).mask else (slave w).mask), w)
  data_port-read irq w = elim (Bool-cases (ltb irq 8)) [
    | inl low ↦ rw low (h.read_master w)
    | inr high ↦ rw high (h.read_slave w)
  ]

  abbrev old : ℕ → W → ℕ
  old irq w = if ltb irq 8 then (master w).mask else (slave w).mask

  set_mask-store :
      (irq : ℕ) (w : W)
      → pic_set_mask p irq w ≡ p.outb (data_port irq) (u8 (bit_or (old irq w) (2 ^ line_of irq))) w
  unfolding pic_set_mask
  set_mask-store irq w =
      ap (λ (r : ℕ × W). p.outb (data_port irq) (u8 (bit_or r.0 (2 ^ line_of irq))) r.1)
        (data_port-read irq w)

  clear_mask-store :
      (irq : ℕ) (w : W)
      → pic_clear_mask p irq w
        ≡ p.outb (data_port irq) (u8 (bit_and (old irq w) (2 ^ 32 - 1 - 2 ^ line_of irq))) w
  unfolding pic_clear_mask
  clear_mask-store irq w =
      ap
        (λ (r : ℕ × W).
          p.outb (data_port irq) (u8 (bit_and r.0 (2 ^ 32 - 1 - 2 ^ line_of irq))) r.1)
        (data_port-read irq w)

  -- A store of the mask with the bit of `irq` set to `b` in it.
  store-masked :
      (b : Bool) (irq i v : ℕ) (w : W)
      → irq < 16
      → i < 16
      → IsOperating (master w)
      → IsOperating (slave w)
      → ((j : ℕ) → j < 8 → bit_of v j ≡ (if j == line_of irq then b else bit_of (old irq w) j))
      → masked (master (p.outb (data_port irq) v w)) (slave (p.outb (data_port irq) v w)) i
        ≡ (if i == irq then b else masked (master w) (slave w) i)
  unfolding masked
  store-masked b irq i v w hq hi m s bits =
      let stores = data_port-masks irq v w m s in
      rw (stores.0) (rw (stores.1) (ground (arith, bits i, bits (i - 8))))

  -- `pic_set_mask` holds back the interrupt that it names, and `pic_clear_mask` lets it through;
  -- neither changes another one of the sixteen.
  pub pic_mask-masked :
      (irq i : ℕ) (w : W)
      → irq < 16
      → i < 16
      → IsOperating (master w)
      → IsOperating (slave w)
      → (masked (master (pic_set_mask p irq w)) (slave (pic_set_mask p irq w)) i
          ≡ (if i == irq then true else masked (master w) (slave w) i))
        × (masked (master (pic_clear_mask p irq w)) (slave (pic_clear_mask p irq w)) i
            ≡ (if i == irq then false else masked (master w) (slave w) i))
  pic_mask-masked irq i w hq hi m s = (
    rw (set_mask-store irq w) (
        store-masked true irq i _ w hq hi m s
          (λ j q. bit_of_or (old irq w) (line_of irq) j (byte irq w m s) (line irq hq) q)),
    rw (clear_mask-store irq w) (
        store-masked false irq i _ w hq hi m s
          (λ j q. bit_of_and (old irq w) (line_of irq) j (byte irq w m s) (line irq hq) q)),
  )
    where
      line : (irq : ℕ) → irq < 16 → line_of irq < 8
      line irq h = ground arith

      byte : (irq : ℕ) (w : W) → IsOperating (master w) → IsOperating (slave w) → old irq w < 256
      byte irq w m s = ground (arith, m.byte, s.byte)
