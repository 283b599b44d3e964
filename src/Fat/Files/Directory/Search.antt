-- ===== src/Fat/Files/Directory/Search.antt =====
-- What the search of a directory finds.
use nedoos.Prelude.{
  ℕ, zero, suc, ◌+◌, ◌*◌, ◌≤◌, ◌<◌, ◌≡◌, ◌⊎◌, inl, inr, refl, sym, ap, subst, Bool, true, false,
  List, length, Option, none, some, ◌>>=◌, leb, if◌then◌else◌, arith, Bool-cases, ℕ_discrete,
}
use nedoos.Fat.Files.Directory.{Entry, read_entry, entry_at, is_end, is_deleted, find_entry}

-- The entry at `j` does not end the directory, and is deleted or fails the test.
pub record Skipped (test : Entry → Bool) (sec : List ℕ) (j : ℕ) : Type 0 where
  pub entry : Entry
  pub there : entry_at sec j ≡ some entry
  pub more : is_end entry ≡ false
  pub passed : (is_deleted entry ≡ true) ⊎ (test entry ≡ false)

pub data FindResult (test : Entry → Bool) (sec : List ℕ) (i stop : ℕ) (r : Option (Option Entry))
    : Type 0 where
  found :
      (k : ℕ) (e : Entry)
      → i ≤ k
      → k < stop
      → entry_at sec k ≡ some e
      → is_end e ≡ false
      → is_deleted e ≡ false
      → test e ≡ true
      → ((j : ℕ) → i ≤ j → j < k → Skipped test sec j)
      → r ≡ some (some e)
      → FindResult test sec i stop r
  ended :
      (k : ℕ) (e : Entry)
      → i ≤ k
      → k < stop
      → entry_at sec k ≡ some e
      → is_end e ≡ true
      → ((j : ℕ) → i ≤ j → j < k → Skipped test sec j)
      → r ≡ some none
      → FindResult test sec i stop r
  missed :
      ((j : ℕ) → i ≤ j → j < stop → Skipped test sec j)
      → r ≡ some none
      → FindResult test sec i stop r

entry_at-some :
    (sec : List ℕ) (i : ℕ) → 32 * i + 32 ≤ length sec → (e : Entry) × (entry_at sec i ≡ some e)
unfolding entry_at
entry_at-some sec i h =
    let inside : leb (32 * i + 32) (length sec) ≡ true = ground (arith, h) in
    (read_entry sec i, rw inside refl)

module _ (test : Entry → Bool) (sec : List ℕ) where
  from_here :
      (i k : ℕ)
      → Skipped test sec i
      → ((j : ℕ) → i + 1 ≤ j → j < k → Skipped test sec j)
      → (j : ℕ) → i ≤ j
      → j < k
      → Skipped test sec j
  from_here i k s rest j a b = elim (ℕ_discrete i j) [
    | yes q ↦ subst (Skipped test sec) q s
    | no n ↦ rest j (omega (arith, n)) b
  ]

  one_later :
      (i stop : ℕ) (r : Option (Option Entry))
      → Skipped test sec i
      → FindResult test sec (i + 1) stop r
      → FindResult test sec i stop r
  one_later i stop r s (found k e a b t m d p n q) =
      found k e (omega arith) b t m d p (from_here i k s n) q
  one_later i stop r s (ended k e a b t m n q) = ended k e (omega arith) b t m (from_here i k s n) q
  one_later i stop r s (missed n q) = missed (from_here i stop s n) q

  -- One round, at an entry that is there.
  round :
      (n i : ℕ) (e : Entry)
      → entry_at sec i ≡ some e
      → find_entry test sec (suc n) i ≡ (
          if is_end e
          then some none
          else if is_deleted e
          then find_entry test sec n (i + 1)
          else if test e
          then some (some e)
          else find_entry test sec n (i + 1))
  unfolding find_entry
  round n i e t =
      ap
        (λ o. o >>= λ x.
          if is_end x
          then some none
          else if is_deleted x
          then find_entry test sec n (i + 1)
          else if test x
          then some (some x)
          else find_entry test sec n (i + 1))
        t

  -- The search returns the first entry that passes the test, before the end of the directory and
  -- past deleted entries; and none only if there is no such entry. It reads within the buffer.
  pub find_entry-Result :
      (n i stop : ℕ)
      → i + n ≡ stop
      → 32 * stop ≤ length sec
      → FindResult test sec i stop (find_entry test sec n i)
  unfolding find_entry
  find_entry-Result zero i stop h b = missed (λ j a c. absurd (omega arith)) refl
  find_entry-Result (suc n) i stop h b =
      let (e, t) = entry_at-some sec i (omega (arith, h, b)) in
      let rest = find_entry-Result n (i + 1) stop (omega arith) b in
      let here : i < stop = omega arith in
      let nothing_before : (j : ℕ) → i ≤ j → j < i → Skipped test sec j =
        λ j a c. absurd (omega (arith, a, c)) in
      subst (FindResult test sec i stop) (sym (round n i e t)) (decide e t here nothing_before rest)
    where
      decide :
          (e : Entry)
          → entry_at sec i ≡ some e
          → i < stop
          → ((j : ℕ) → i ≤ j → j < i → Skipped test sec j)
          → FindResult test sec (i + 1) stop (find_entry test sec n (i + 1))
          → FindResult test sec i stop (
              if is_end e
              then some none
              else if is_deleted e
              then find_entry test sec n (i + 1)
              else if test e
              then some (some e)
              else find_entry test sec n (i + 1))
      decide e t here none_yet rest = elim (Bool-cases (is_end e)) [
        | inl z ↦ rw z (ended i e (omega arith) here t z none_yet refl)
        | inr z ↦ elim (Bool-cases (is_deleted e)) [
          | inl d ↦
              rw (z, d)
                (one_later i stop _ (record { entry = e; there = t; more = z; passed = inl d })
                  rest)
          | inr d ↦ elim (Bool-cases (test e)) [
            | inl p ↦ rw (z, d, p) (found i e (omega arith) here t z d p none_yet refl)
            | inr p ↦
                rw (z, d, p)
                  (one_later i stop _ (record { entry = e; there = t; more = z; passed = inr p })
                    rest)
          ]
        ]
      ]
