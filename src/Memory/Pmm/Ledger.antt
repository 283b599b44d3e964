-- ===== src/Memory/Pmm/Ledger.antt =====
-- Histories of calls to the allocator, beside the list of the addresses that are out on loan.
use nedoos.Prelude.{
  ℕ, ◌*◌, ◌/◌, ◌%◌, ◌<◌, ◌≡◌, ◌≢◌, inl, inr, true, false, List, [], ◌∷◌, ◌==◌, if◌then◌else◌, arith,
  Bool-cases,
}
use nedoos.Memory.Pmm.{Pmm, page_size, page_count, pmm_alloc_page, pmm_free_page}
use nedoos.Memory.Pmm.Alloc.{
  used, IsValid, Grants, pmm_alloc_page_cases, used-free, free-IsValid, alloc-IsValid,
}

pub data Call : Type 0 where
  alloc : Call
  free : ℕ → Call

-- Null is no loan.
abbrev pub lend : ℕ → List ℕ → List ℕ
lend p live = if p == 0 then live else p ∷ live

-- Freeing an address gives back the frame that holds it.
abbrev pub give_back : ℕ → List ℕ → List ℕ
give_back page [] = []
give_back page (p ∷ live) =
    if p / page_size == page then give_back page live else p ∷ give_back page live

pub step : Pmm × List ℕ → Call → Pmm × List ℕ
step (s, live) alloc = ((pmm_alloc_page s).0, lend (pmm_alloc_page s).1 live)
step (s, live) (free addr) = (pmm_free_page s addr, give_back (addr / page_size) live)

pub run : Pmm × List ℕ → List Call → Pmm × List ℕ
unfolding step
run t [] = t
run t (c ∷ cs) = run (step t c) cs

abbrev pub Absent : ℕ → List ℕ → Type 0
Absent p [] = Unit {0}
Absent p (q ∷ live) = (p ≢ q) × Absent p live

-- Each loan is the address of a frame in use, and no two loans are the same.
abbrev pub IsLedger : Pmm → List ℕ → Type 0
IsLedger s [] = Unit {0}
IsLedger s (p ∷ live) =
    (p % page_size ≡ 0)
    × (p / page_size < page_count)
    × (used s (p / page_size) ≡ true)
    × Absent p live
    × IsLedger s live

-- The frame of a loan is in use, so a free frame is no loan's.
Absent-of_free :
    (s : Pmm) (i : ℕ) (live : List ℕ)
    → used s i ≡ false
    → IsLedger s live
    → Absent (i * page_size) live
Absent-of_free s i [] f l = tt
Absent-of_free s i (p ∷ live) f l = (λ e. clash e, Absent-of_free s i live f l.4)
  where
    clash : i * page_size ≡ p → ⊥
    clash e =
        let same : p / page_size ≡ i = omega arith in
        let both : used s i ≡ true = rw (← same) l.2 in cc

module _ (s s' : Pmm) (keeps : (c : ℕ) → used s c ≡ true → used s' c ≡ true) where
  IsLedger-mono : (live : List ℕ) → IsLedger s live → IsLedger s' live
  IsLedger-mono [] l = tt
  IsLedger-mono (p ∷ live) l = (l.0, l.1, keeps (p / page_size) l.2, l.3, IsLedger-mono live l.4)

pub Grants-keeps :
    (s : Pmm) (r : Pmm × ℕ) (i : ℕ) → Grants s r i → (c : ℕ) → used s c ≡ true → used r.0 c ≡ true
Grants-keeps s r i g c h = ground (arith, g.marks c)

lend-IsLedger :
    (s : Pmm) (r : Pmm × ℕ) (i : ℕ) (live : List ℕ)
    → Grants s r i
    → IsLedger s live
    → IsLedger r.0 (lend r.1 live)
lend-IsLedger s r i live g l = elim (Bool-cases (r.1 == 0)) [
  | inl z ↦ rw z older
  | inr z ↦ rw z (
    omega (arith, g.address),
    omega (arith, g.address, g.in_range),
    rw frame marked,
    rw g.address (Absent-of_free s i live g.was_free l),
    older,
  )
]
  where
    older : IsLedger r.0 live
    older = IsLedger-mono s r.0 (Grants-keeps s r i g) live l

    frame : r.1 / page_size ≡ i
    frame = omega (arith, g.address)

    marked : used r.0 i ≡ true
    marked = ground (arith, g.marks i)

alloc-IsLedger :
    (s : Pmm) (live : List ℕ)
    → IsValid s
    → IsLedger s live
    → IsLedger (pmm_alloc_page s).0 (lend (pmm_alloc_page s).1 live)
alloc-IsLedger s live v l = elim (pmm_alloc_page_cases s v) [
  | inl (i, g) ↦ lend-IsLedger s (pmm_alloc_page s) i live g l
  | inr f ↦ rw f.unchanged l
]

give_back-Absent : (q page : ℕ) (live : List ℕ) → Absent q live → Absent q (give_back page live)
give_back-Absent q page [] a = tt
give_back-Absent q page (p ∷ live) a = ground (arith, give_back-Absent q page live a.1)

free-IsLedger :
    (s : Pmm) (addr : ℕ) (live : List ℕ)
    → IsValid s
    → IsLedger s live
    → IsLedger (pmm_free_page s addr) (give_back (addr / page_size) live)
free-IsLedger s addr [] v l = tt
free-IsLedger s addr (p ∷ live) v l = ground (
  arith,
  used-free s addr (p / page_size) v l.1,
  free-IsLedger s addr live v l.4,
  give_back-Absent p (addr / page_size) live l.3,
)

-- Whatever the order of the calls, no frame is lent twice: the loans stay distinct, aligned, in
-- range, and marked as in use.
pub run-IsLedger :
    (cs : List Call) (s : Pmm) (live : List ℕ)
    → IsValid s
    → IsLedger s live
    → IsLedger (run (s, live) cs).0 (run (s, live) cs).1
unfolding run
run-IsLedger [] s live v l = l
run-IsLedger (alloc ∷ cs) s live v l =
    run-IsLedger cs _ _ (alloc-IsValid s v) (alloc-IsLedger s live v l)
run-IsLedger (free addr ∷ cs) s live v l =
    run-IsLedger cs _ _ (free-IsValid s addr v) (free-IsLedger s addr live v l)
