-- ===== src/Net/Stack/Arp.antt =====
-- The ARP table as a map from addresses to places.
use nedoos.Prelude.{
  ℕ, zero, suc, ◌+◌, ◌<◌, ◌≡◌, refl, ap, ◌∙◌, Bool, List, Option, none, some, ◌==◌, if◌then◌else◌,
  arith, eq→==, ne→==, Bool-cases, inl, inr, lt→ltb,
}
use nedoos.Task.Search.{first_from}
use nedoos.Net.Stack.{ArpEntry, Net, arp_lookup, arp_learn, learn}

abbrev pub or_else : Option ℕ → Option ℕ → Option ℕ
or_else none o = o
or_else (some i) o = some i

-- A search that goes one place further.
first_from-more :
    (p : ℕ → Bool) (n i : ℕ)
    → first_from p (suc n) i ≡ or_else (first_from p n i) (if p (i + n) then some (i + n) else none)
unfolding first_from
first_from-more p zero i =
    let here : i + 0 ≡ i = omega arith in
    elim (Bool-cases (p i)) [ inl h ↦ rw (here, h) refl | inr h ↦ rw (here, h) refl ]
first_from-more p (suc n) i =
    let there : i + 1 + n ≡ i + suc n = omega arith in
    elim (Bool-cases (p i)) [
      | inl h ↦ rw h refl
      | inr h ↦ rw h (first_from-more p n (i + 1) ∙ rw there refl)
    ]

first_from-same :
    (p q : ℕ → Bool) (n i stop : ℕ)
    → i + n ≡ stop
    → ((j : ℕ) → j < stop → p j ≡ q j)
    → first_from p n i ≡ first_from q n i
unfolding first_from
first_from-same p q zero i stop e h = refl
first_from-same p q (suc n) i stop e h =
    let here : p i ≡ q i = h i (omega arith) in
    elim (Bool-cases (q i)) [
      | inl t ↦ rw (here, t) refl
      | inr f ↦ rw (here, f) (first_from-same p q n (i + 1) stop (omega arith) h)
    ]

learnt :
    (mac : List ℕ) (ip q : ℕ) (n : Net)
    → arp_lookup q (learn mac ip n)
      ≡ or_else (arp_lookup q n) (if ip == q then some n.arp_table_count else none)
unfolding arp_lookup
learnt mac ip q n =
    let c : ℕ = n.arp_table_count in
    let table : ℕ → ArpEntry = (learn mac ip n).arp_table in
    let new : table (0 + c) ≡ record { ip = ip; mac = mac; age = 0 } =
      rw (eq→== (0 + c) c (omega arith)) refl in
    let own : ((table (0 + c)).ip == q) ≡ (ip == q) = ap (λ (e : ArpEntry). e.ip == q) new in
    let kept : (j : ℕ) → j < c → table j ≡ n.arp_table j =
      λ j h. rw (ne→== j c (omega (arith, h))) refl in
    let older : first_from (λ i. (table i).ip == q) c 0
        ≡ first_from (λ i. (n.arp_table i).ip == q) c 0 =
      first_from-same _ _ c 0 c (omega arith)
        (λ j h. ap (λ (e : ArpEntry). e.ip == q) (kept j h)) in
    let place : 0 + c ≡ c = omega arith in
    let one_more : c + 1 ≡ suc c = omega arith in
    ap (λ k. first_from (λ i. (table i).ip == q) k 0) one_more
    ∙ (first_from-more (λ i. (table i).ip == q) c 0
        ∙ (ap (λ o. or_else o (if (table (0 + c)).ip == q then some (0 + c) else none)) older
            ∙ (ap (λ b. or_else (arp_lookup q n) (if b then some (0 + c) else none)) own
                ∙ ap (λ k. or_else (arp_lookup q n) (if ip == q then some k else none)) place)))

-- While the table has room, learning an address makes it known at the next place, unless it was
-- known: then, and for every other address, the lookup gives what it gave before.
pub arp_lookup-learn :
    (mac : List ℕ) (ip q : ℕ) (n : Net)
    → n.arp_table_count < 16
    → arp_lookup q (arp_learn mac ip n)
      ≡ or_else (arp_lookup q n) (if ip == q then some n.arp_table_count else none)
unfolding arp_learn
arp_lookup-learn mac ip q n h = rw (lt→ltb n.arp_table_count 16 h) (learnt mac ip q n)
