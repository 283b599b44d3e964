-- ===== src/Drivers/Ata/Store.antt =====
-- What `ata_write` writes to a drive that follows the protocol.
use nedoos.Prelude.{
  ℕ, zero, suc, ◌+◌, ◌*◌, ◌/◌, ◌%◌, ◌^◌, ◌≤◌, ◌<◌, ◌≡◌, refl, ap, ap₂, ◌∙◌, Bool, List, [], ◌∷◌,
  ◌++◌, length, length-take, IsBytes, get_or, take, ◌==◌, if◌then◌else◌, arith, Bool-cases, inl,
  inr,
}
use nedoos.Drivers.Ata.{Ports, is_idle, has_data, wait, select, write_words, ata_write}
use nedoos.Drivers.Ata.Sector.{
  address, Drive, wait-keeps, registers, address-written, select-sector,
}

-- How the drive takes a sector: the command 0x30 fixes its number, the words that follow are
-- collected, and the 256th of them completes the sector.
pub record Stores {W : Type 0} (p : Ports W) (d : Drive p) : Type 0 where
  pub target : W → ℕ
  pub received : W → List ℕ
  pub target-write : (w : W) → target (p.outb 0x1f7 0x30 w) ≡ address (d.register w)
  pub received-write : (w : W) → received (p.outb 0x1f7 0x30 w) ≡ []
  pub target-inb : (w : W) → target (p.inb 0x1f7 w).1 ≡ target w
  pub received-inb : (w : W) → received (p.inb 0x1f7 w).1 ≡ received w
  pub collect :
      (v : ℕ) (w : W)
      → length (received w) < 510
      → (received (p.outw 0x1f0 v w) ≡ received w ++ (v % 256 ∷ v / 256 % 256 ∷ []))
        × (target (p.outw 0x1f0 v w) ≡ target w)
        × ((n : ℕ) → d.sector (p.outw 0x1f0 v w) n ≡ d.sector w n)
  pub complete :
      (v n : ℕ) (w : W)
      → length (received w) ≡ 510
      → d.sector (p.outw 0x1f0 v w) n
        ≡ (if n == target w then received w ++ (v % 256 ∷ v / 256 % 256 ∷ []) else d.sector w n)

take-two :
    (i : ℕ) (buf : List ℕ)
    → i + 2 ≤ length buf
    → take i buf ++ (get_or buf i 0 ∷ get_or buf (suc i) 0 ∷ []) ≡ take (suc (suc i)) buf
take-two i [] h = absurd (omega (arith, h))
take-two zero (x ∷ []) h = absurd (omega (arith, h))
take-two zero (x ∷ y ∷ buf) h = refl
take-two (suc i) (x ∷ buf) h = ap (λ t. x ∷ t) (take-two i buf (omega (arith, h)))

take_whole : (n : ℕ) (buf : List ℕ) → length buf ≡ n → take n buf ≡ buf
take_whole zero [] h = refl
take_whole zero (x ∷ buf) h = absurd (omega (arith, h))
take_whole (suc n) [] h = refl
take_whole (suc n) (x ∷ buf) h = ap (λ t. x ∷ t) (take_whole n buf (omega (arith, h)))

module _ {W : Type 0} (p : Ports W) (d : Drive p) (st : Stores p d) where
  abbrev nth_word : List ℕ → ℕ → ℕ
  nth_word buf i = get_or buf (2 * i) 0 + 256 * get_or buf (2 * i + 1) 0

  -- The word at `i` after the words before it.
  word_added :
      (buf : List ℕ) (i : ℕ)
      → length buf ≡ 512
      → IsBytes (λ k. get_or buf k 0)
      → i < 256
      → take (2 * i) buf ++ (nth_word buf i % 256 ∷ nth_word buf i / 256 % 256 ∷ [])
        ≡ take (2 * (i + 1)) buf
  word_added buf i h b l =
      let low : nth_word buf i % 256 ≡ get_or buf (2 * i) 0 =
        omega (arith, b (2 * i), b (2 * i + 1)) in
      let second : 2 * i + 1 ≡ suc (2 * i) = omega arith in
      let high : nth_word buf i / 256 % 256 ≡ get_or buf (suc (2 * i)) 0 =
        omega (arith, b (2 * i), b (2 * i + 1)) ∙ ap (λ k. get_or buf k 0) second in
      let size : suc (suc (2 * i)) ≡ 2 * (i + 1) = omega arith in
      ap₂ (λ x y. take (2 * i) buf ++ (x ∷ y ∷ [])) low high
      ∙ (take-two (2 * i) buf (omega (arith, h, l)) ∙ ap (λ k. take k buf) size)

  words_stored :
      (n i : ℕ) (buf : List ℕ) (w : W)
      → i + suc n ≡ 256
      → length buf ≡ 512
      → IsBytes (λ k. get_or buf k 0)
      → st.received w ≡ take (2 * i) buf
      → (m : ℕ)
      → d.sector (write_words p (suc n) i buf w) m
        ≡ (if m == st.target w then buf else d.sector w m)
  unfolding write_words
  words_stored zero i buf w e h b r m =
      let size : length (st.received w) ≡ 510 =
        ap length r ∙ omega (arith, length-take (2 * i) buf, e, h) in
      let last : i ≡ 255 = omega (arith, e) in
      let whole : st.received w ++ (nth_word buf i % 256 ∷ nth_word buf i / 256 % 256 ∷ []) ≡ buf =
        ap (λ t. t ++ (nth_word buf i % 256 ∷ nth_word buf i / 256 % 256 ∷ [])) r
        ∙ (word_added buf i h b (omega (arith, last))
            ∙ take_whole (2 * (i + 1)) buf (omega (arith, h, last))) in
      st.complete (nth_word buf i) m w size
      ∙ ap (λ t. if m == st.target w then t else d.sector w m) whole
  words_stored (suc n) i buf w e h b r m =
      let size : length (st.received w) < 510 =
        omega (arith, ap length r, length-take (2 * i) buf, e, h) in
      let c = st.collect (nth_word buf i) w size in
      let next =
        words_stored n (i + 1) buf (p.outw 0x1f0 (nth_word buf i) w) (omega (arith, e)) h b
          (c.0
            ∙ (ap (λ t. t ++ (nth_word buf i % 256 ∷ nth_word buf i / 256 % 256 ∷ [])) r
                ∙ word_added buf i h b (omega (arith, e))))
          m in
      next ∙ ap₂ (λ x y. if m == x then buf else y) c.1 (c.2 m)

  wait-stores :
      (ready : ℕ → Bool) (rounds : ℕ) (w : W)
      → (st.received (wait p ready rounds w) ≡ st.received w)
        × (st.target (wait p ready rounds w) ≡ st.target w)
  unfolding wait
  wait-stores ready zero w = (refl, refl)
  wait-stores ready (suc rounds) w = elim (Bool-cases (ready (p.inb 0x1f7 w).0)) [
    | inl r ↦ rw r (st.received-inb w, st.target-inb w)
    | inr r ↦
        let rest = wait-stores ready rounds (p.inb 0x1f7 w).1 in
        rw r (rest.0 ∙ st.received-inb w, rest.1 ∙ st.target-inb w)
  ]

  select-stores :
      (lba : ℕ) (w : W)
      → lba < 2 ^ 28
      → (st.received (select p lba 0x30 w) ≡ []) × (st.target (select p lba 0x30 w) ≡ lba)
  unfolding select
  select-stores lba w h =
      (st.received-write _, st.target-write _ ∙ (registers p d lba w ∙ address-written lba h))

  pub ata_write-sector :
      (lba m : ℕ) (buf : List ℕ) (w : W)
      → lba < 2 ^ 28
      → length buf ≡ 512
      → IsBytes (λ k. get_or buf k 0)
      → ((ata_write p lba buf w).0 ≡ 0)
        × (d.sector (ata_write p lba buf w).1 m ≡ (if m == lba then buf else d.sector w m))
  unfolding ata_write
  ata_write-sector lba m buf w l h b =
      let w1 = wait p is_idle 1000 w in
      let w2 = select p lba 0x30 w1 in
      let w3 = wait p has_data 1000 w2 in
      let idle = wait-keeps p d is_idle 1000 w in
      let filled = wait-keeps p d has_data 1000 w2 in
      let ready = wait-stores has_data 1000 w2 in
      let chosen = select-stores lba w1 l in
      let kept = filled.1 m ∙ (select-sector p d lba 0x30 m w1 ∙ idle.1 m) in
      (
        refl,
        words_stored 255 0 buf w3 refl h b (ready.0 ∙ chosen.0) m
            ∙ ap₂ (λ x y. if m == x then buf else y) (ready.1 ∙ chosen.1) kept,
      )
