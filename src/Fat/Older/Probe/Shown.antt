-- ===== src/Fat/Older/Probe/Shown.antt =====
-- What `mount_fat` prints stays on the screen, and nothing of it fails.
use nedoos.Prelude.{
  ℕ, zero, suc, ◌+◌, ◌%◌, ◌≤◌, inl, inr, List, [], ◌∷◌, some, Bool-cases, ◌==◌, arith, Gives,
  some-Gives, bind-Gives,
}
use nedoos.Console.{Console, putchar, print, print_dec}
use nedoos.Console.Held.{Held, putchar-Held, print-Held, print_dec-Held}
use nedoos.Fat.Older.Probe.{
  probe_title, reading, fail, read_ok, dump_title, found_text, missing_text, put_byte, byte_at,
  row_start, dump, has_signature, print_signature, mount_fat,
}

put_byte-Held : (v : ℕ → ℕ) (b : ℕ) (c : Console) → Held v c → Held v (put_byte b c)
put_byte-Held v b c h = putchar-Held v _ _ (putchar-Held v _ c h)

row_start-Held :
    (v : ℕ → ℕ) (i : ℕ) (c : Console) → i ≤ 64 → Held v c → Gives (Held v) (row_start i c)
unfolding row_start
row_start-Held v i c b h = elim (Bool-cases (i % 16 == 0)) [
  | inl starts ↦ rw starts (
      bind-Gives (Held v) (Held v) (print_dec i (print (10 ∷ []) c))
        (λ c'. some (print (58 ∷ 32 ∷ []) c'))
        (print_dec-Held v i _ (omega (arith, b)) (print-Held v (10 ∷ []) c h))
        (λ c' h'. some-Gives (Held v) _ (print-Held v (58 ∷ 32 ∷ []) c' h')))
  | inr goes_on ↦ rw goes_on (some-Gives (Held v) c h)
]

dump-Held :
    (v : ℕ → ℕ) (n i : ℕ) (sector : List ℕ) (c : Console)
    → i + n ≤ 64
    → Held v c
    → Gives (Held v) (dump n i sector c)
unfolding dump
dump-Held v zero i sector c b h = some-Gives (Held v) c h
dump-Held v (suc n) i sector c b h =
    bind-Gives (Held v) (Held v) (row_start i c)
      (λ c'. dump n (i + 1) sector (putchar 32 (put_byte (byte_at sector i) c')))
      (row_start-Held v i c (omega (arith, b)) h)
      λ c' h'.
        dump-Held v n (i + 1) sector _ (omega (arith, b))
          (putchar-Held v 32 _ (put_byte-Held v (byte_at sector i) c' h'))

signature-Held :
    (v : ℕ → ℕ) (sector : List ℕ) (c : Console) → Held v c → Held v (print_signature sector c)
unfolding print_signature
signature-Held v sector c h = elim (Bool-cases (has_signature sector)) [
  | inl has ↦ rw has (print-Held v found_text c h)
  | inr has_not ↦ rw has_not (
      print-Held v (10 ∷ []) _ (
        put_byte-Held v _ _ (
          putchar-Held v 32 _ (
            put_byte-Held v _ _
              (putchar-Held v 32 _ (put_byte-Held v _ _ (print-Held v missing_text c h)))))))
]

-- Whatever the drive answers, `mount_fat` comes to its end, the cursor is on the screen, and no word
-- past the screen has changed.
mount_fat-Held :
    {W : Type 0} (fdc_read_sector : ℕ → W → ℕ × List ℕ × W) (w : W) (v : ℕ → ℕ) (c : Console)
    → Held v c
    → Gives (λ (r : W × Console). Held v r.1) (mount_fat fdc_read_sector w c)
unfolding mount_fat
mount_fat-Held fdc_read_sector w v c h =
    let (status, sector, w') = fdc_read_sector 0 w in
    let c1 = print reading (print probe_title c) in
    let h1 : Held v c1 = print-Held v reading _ (print-Held v probe_title c h) in
    elim (Bool-cases (status == 0)) [
      | inl read ↦ rw read (
          bind-Gives (Held v) (λ r. Held v r.1)
            (dump 64 0 sector (print dump_title (print read_ok c1)))
            (λ c2. some (w', print_signature sector (print (10 ∷ []) c2)))
            (dump-Held v 64 0 sector _ (omega arith)
              (print-Held v dump_title _ (print-Held v read_ok c1 h1)))
            (λ c2 h2.
              some-Gives (λ r. Held v r.1) _
                (signature-Held v sector _ (print-Held v (10 ∷ []) c2 h2))))
      | inr failed ↦ rw failed (some-Gives (λ r. Held v r.1) _ (print-Held v fail c1 h1))
    ]
