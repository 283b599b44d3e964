-- ===== src/Drivers/Ata/Sector.antt =====
-- What `ata_read` reads from a drive that follows the protocol.
use nedoos.Prelude.{
  ℕ, zero, suc, ◌+◌, ◌*◌, ◌/◌, ◌%◌, ◌^◌, ◌<◌, ◌≡◌, refl, ap, ap₂, ◌∙◌, bit_and, bit_or, Bool, List,
  [], ◌∷◌, length, IsBytes, get_or, ◌==◌, if◌then◌else◌, arith, u8, Bool-cases, inl, inr,
}
use nedoos.Prelude.Bits.{bit_and_mask, bit_or_disjoint}
use nedoos.Drivers.Ata.{Ports, is_idle, has_data, wait, select, read_words, ata_read}

-- The sector number that the four registers hold.
abbrev pub address : (ℕ → ℕ) → ℕ
address reg = reg 0x1f6 % 16 * 2 ^ 24 + reg 0x1f5 * 65536 + reg 0x1f4 * 256 + reg 0x1f3

-- A drive behind the ports: a register holds the last byte written to it; the command 0x20 makes the
-- bytes of the addressed sector pending; reading the data port takes them two by two, low byte
-- first; nothing else changes the registers, the pending bytes or the sectors.
pub record Drive {W : Type 0} (p : Ports W) : Type 0 where
  pub register : W → ℕ → ℕ
  pub pending : W → List ℕ
  pub sector : W → ℕ → List ℕ
  pub sector_size : (w : W) (n : ℕ) → length (sector w n) ≡ 512
  pub sector-IsBytes : (w : W) (n : ℕ) → IsBytes (λ i. get_or (sector w n) i 0)
  pub register-outb :
      (port v q : ℕ) (w : W)
      → register (p.outb port v w) q ≡ (if q == port then v else register w q)
  pub register-inb : (port q : ℕ) (w : W) → register (p.inb port w).1 q ≡ register w q
  pub sector-outb : (port v n : ℕ) (w : W) → sector (p.outb port v w) n ≡ sector w n
  pub sector-inb : (port n : ℕ) (w : W) → sector (p.inb port w).1 n ≡ sector w n
  pub sector-inw : (n : ℕ) (w : W) → sector (p.inw 0x1f0 w).1 n ≡ sector w n
  pub pending-read : (w : W) → pending (p.outb 0x1f7 0x20 w) ≡ sector w (address (register w))
  pub pending-inb : (w : W) → pending (p.inb 0x1f7 w).1 ≡ pending w
  pub inw-pending :
      (lo hi : ℕ) (rest : List ℕ) (w : W)
      → pending w ≡ lo ∷ hi ∷ rest
      → ((p.inw 0x1f0 w).0 ≡ lo + 256 * hi) × (pending (p.inw 0x1f0 w).1 ≡ rest)

-- The four bytes that are written make up the 28 bits of the sector number.
abbrev written : ℕ → ℕ → ℕ
written lba q =
    if q == 0x1f6
    then u8 (bit_or 0xe0 (bit_and (lba / 2 ^ 24) 0x0f))
    else if q == 0x1f5
    then u8 (lba / 2 ^ 16)
    else if q == 0x1f4
    then u8 (lba / 2 ^ 8)
    else u8 lba

top_bits : (n : ℕ) → u8 (bit_or 0xe0 (bit_and n 0x0f)) % 16 ≡ n % 16
top_bits n = omega (
  arith,
  bit_and_mask 4 n,
  bit_or_disjoint 4 14 (bit_and n 0x0f) (omega (arith, bit_and_mask 4 n)),
)

pub address-written : (lba : ℕ) → lba < 2 ^ 28 → address (written lba) ≡ lba
address-written lba h = omega (arith, top_bits (lba / 2 ^ 24), h)

module _ {W : Type 0} (p : Ports W) (d : Drive p) where
  -- What the waiting keeps.
  pub wait-keeps :
      (ready : ℕ → Bool) (rounds : ℕ) (w : W)
      → (d.pending (wait p ready rounds w) ≡ d.pending w)
        × ((n : ℕ) → d.sector (wait p ready rounds w) n ≡ d.sector w n)
  unfolding wait
  wait-keeps ready zero w = (refl, λ n. refl)
  wait-keeps ready (suc rounds) w = elim (Bool-cases (ready (p.inb 0x1f7 w).0)) [
    | inl r ↦ rw r (d.pending-inb w, λ n. d.sector-inb 0x1f7 n w)
    | inr r ↦
        let rest = wait-keeps ready rounds (p.inb 0x1f7 w).1 in
        rw r (rest.0 ∙ d.pending-inb w, λ n. rest.1 n ∙ d.sector-inb 0x1f7 n w)
  ]

  pub select-sector :
      (lba command n : ℕ) (w : W) → d.sector (select p lba command w) n ≡ d.sector w n
  unfolding select
  select-sector lba command n w =
      d.sector-outb 0x1f7 _ n _
      ∙ (d.sector-outb 0x1f5 _ n _
          ∙ (d.sector-outb 0x1f4 _ n _
              ∙ (d.sector-outb 0x1f3 _ n _
                  ∙ (d.sector-outb 0x1f2 _ n _ ∙ d.sector-outb 0x1f6 _ n w))))

  -- The registers when the command is written.
  pub registers :
      (lba : ℕ) (w : W)
      → let w1 = p.outb 0x1f6 (u8 (bit_or 0xe0 (bit_and (lba / 2 ^ 24) 0x0f))) w in
        let w2 = p.outb 0x1f2 1 w1 in
        let w3 = p.outb 0x1f3 (u8 lba) w2 in
        let w4 = p.outb 0x1f4 (u8 (lba / 2 ^ 8)) w3 in
        let w5 = p.outb 0x1f5 (u8 (lba / 2 ^ 16)) w4 in
        address (d.register w5) ≡ address (written lba)
  registers lba w =
      let w1 = p.outb 0x1f6 (u8 (bit_or 0xe0 (bit_and (lba / 2 ^ 24) 0x0f))) w in
      let w2 = p.outb 0x1f2 1 w1 in
      let w3 = p.outb 0x1f3 (u8 lba) w2 in
      let w4 = p.outb 0x1f4 (u8 (lba / 2 ^ 8)) w3 in
      let r1 = d.register-outb 0x1f6 (u8 (bit_or 0xe0 (bit_and (lba / 2 ^ 24) 0x0f))) in
      let r2 = d.register-outb 0x1f2 1 in
      let r3 = d.register-outb 0x1f3 (u8 lba) in
      let r4 = d.register-outb 0x1f4 (u8 (lba / 2 ^ 8)) in
      let r5 = d.register-outb 0x1f5 (u8 (lba / 2 ^ 16)) in
      let a = r5 0x1f6 w4 ∙ (r4 0x1f6 w3 ∙ (r3 0x1f6 w2 ∙ (r2 0x1f6 w1 ∙ r1 0x1f6 w))) in
      let b = r5 0x1f5 w4 in
      let c = r5 0x1f4 w4 ∙ r4 0x1f4 w3 in
      let e = r5 0x1f3 w4 ∙ (r4 0x1f3 w3 ∙ r3 0x1f3 w2) in rw (a, b, c, e) refl

  -- The bytes that are pending once the command is written, whatever the number.
  select-pending :
      (lba : ℕ) (w : W) → d.pending (select p lba 0x20 w) ≡ d.sector w (address (written lba))
  unfolding select
  select-pending lba w =
      d.pending-read _
      ∙ (ap (d.sector _) (registers lba w)
          ∙ (d.sector-outb 0x1f5 _ _ _
              ∙ (d.sector-outb 0x1f4 _ _ _
                  ∙ (d.sector-outb 0x1f3 _ _ _
                      ∙ (d.sector-outb 0x1f2 _ _ _ ∙ d.sector-outb 0x1f6 _ _ w)))))

  read_words-pending :
      (n : ℕ) (buf : List ℕ) (w : W)
      → d.pending w ≡ buf
      → length buf ≡ 2 * n
      → IsBytes (λ i. get_or buf i 0)
      → ((read_words p n w).0 ≡ buf) × ((m : ℕ) → d.sector (read_words p n w).1 m ≡ d.sector w m)
  unfolding read_words
  read_words-pending zero [] w e h b = (refl, λ m. refl)
  read_words-pending zero (x ∷ buf) w e h b = absurd (omega (arith, h))
  read_words-pending (suc n) [] w e h b = absurd (omega (arith, h))
  read_words-pending (suc n) (x ∷ []) w e h b = absurd (omega (arith, h))
  read_words-pending (suc n) (lo ∷ hi ∷ rest) w e h b =
      let r = d.inw-pending lo hi rest w e in
      let low : (p.inw 0x1f0 w).0 % 256 ≡ lo = omega (arith, r.0, b 0, b 1) in
      let high : (p.inw 0x1f0 w).0 / 256 % 256 ≡ hi = omega (arith, r.0, b 0, b 1) in
      let ih =
        read_words-pending n rest (p.inw 0x1f0 w).1 r.1 (omega (arith, h)) (λ i. b (suc (suc i))) in
      (ap₂ (λ x y. x ∷ y) low (ap₂ (λ x y. x ∷ y) high ih.0), λ m. ih.1 m ∙ d.sector-inw m w)

  read-both :
      (lba : ℕ) (w : W)
      → ((ata_read p lba w).1 ≡ d.sector w (address (written lba)))
        × ((n : ℕ) → d.sector (ata_read p lba w).2 n ≡ d.sector w n)
  unfolding ata_read
  read-both lba w =
      let at = address (written lba) in
      let idle = wait-keeps is_idle 1000 w in
      let w1 = wait p is_idle 1000 w in
      let w2 = select p lba 0x20 w1 in
      let filled = wait-keeps has_data 1000 w2 in
      let buf = d.sector w at in
      let size : length buf ≡ 2 * 256 = d.sector_size w at in
      let words =
        read_words-pending 256 buf (wait p has_data 1000 w2)
          (filled.0 ∙ (select-pending lba w1 ∙ idle.1 at)) size (d.sector-IsBytes w at) in
      (words.0, λ n. words.1 n ∙ (filled.1 n ∙ (select-sector lba 0x20 n w1 ∙ idle.1 n)))

  pub read-status : (lba : ℕ) (w : W) → (ata_read p lba w).0 ≡ 0
  unfolding ata_read
  read-status lba w = refl

  pub ata_read-sector :
      (lba : ℕ) (w : W)
      → lba < 2 ^ 28
      → ((ata_read p lba w).0 ≡ 0)
        × ((ata_read p lba w).1 ≡ d.sector w lba)
        × ((n : ℕ) → d.sector (ata_read p lba w).2 n ≡ d.sector w n)
  ata_read-sector lba w h =
      let r = read-both lba w in
      (read-status lba w, r.0 ∙ ap (d.sector w) (address-written lba h), r.1)

  pub ata_read-keeps : (lba n : ℕ) (w : W) → d.sector (ata_read p lba w).2 n ≡ d.sector w n
  ata_read-keeps lba n w = (read-both lba w).1 n
