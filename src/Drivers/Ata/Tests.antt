-- ===== src/Drivers/Ata/Tests.antt =====
-- A drive that is always ready, and the theorems applied to it.
use nedoos.Prelude.{
  ℕ, ◌+◌, ◌*◌, ◌%◌, ◌/◌, refl, ap, ◌&&◌, List, [], ◌∷◌, ◌++◌, length, replicate, get_or, update,
  ltb, ◌==◌, if◌then◌else◌,
}
use nedoos.Drivers.Ramdisk.{Sectors, sector, sector_size, sector-IsBytes, write}
use nedoos.Drivers.Ata.{Ports}
use nedoos.Drivers.Ata.Sector.{Drive, address}

record State : Type 0 where
  reg : ℕ → ℕ
  pending : List ℕ
  sectors : Sectors
  target : ℕ
  taken : List ℕ

tail_word : List ℕ → List ℕ
tail_word (lo ∷ hi ∷ rest) = rest
tail_word _ = []

abbrev head_word : List ℕ → ℕ
head_word buf = get_or buf 0 0 + 256 * get_or buf 1 0

-- The registers and the pending bytes after a byte is written to a port.
abbrev after_outb : ℕ → ℕ → State → State
after_outb port v w = record {
  reg = update w.reg port v;
  pending = if (port == 0x1f7) && (v == 0x20) then sector w.sectors (address w.reg) else w.pending;
  sectors = w.sectors;
  target = if (port == 0x1f7) && (v == 0x30) then address w.reg else w.target;
  taken = if (port == 0x1f7) && (v == 0x30) then [] else w.taken;
}

-- The bytes that have been taken.
low_bytes : List ℕ → List ℕ
low_bytes [] = []
low_bytes (x ∷ xs) = x % 256 ∷ low_bytes xs

abbrev with_word : State → ℕ → List ℕ
with_word w v = w.taken ++ (v % 256 ∷ v / 256 % 256 ∷ [])

abbrev after_outw : ℕ → State → State
after_outw v w =
    if ltb (length w.taken) 510
    then record w { taken = with_word w v }
    else record w { sectors = write w.target (low_bytes (with_word w v)) w.sectors }

abbrev ports : Ports State
ports = record {
  inb = λ port w. (0x48, w);
  inw = λ port w. (head_word w.pending, record w { pending = tail_word w.pending });
  outb = after_outb;
  outw = λ port v w. after_outw v w;
}

drive : Drive ports
unfolding tail_word
drive = record {
  register = λ w. w.reg;
  pending = λ w. w.pending;
  sector = λ w n. sector w.sectors n;
  sector_size = λ w n. sector_size w.sectors n;
  sector-IsBytes = λ w n. sector-IsBytes w.sectors n;
  register-outb = λ port v q w. refl;
  register-inb = λ port q w. refl;
  sector-outb = λ port v n w. refl;
  sector-inb = λ port n w. refl;
  sector-inw = λ n w. refl;
  pending-read = λ w. refl;
  pending-inb = λ w. refl;
  inw-pending = λ lo hi rest w e. (ap head_word e, ap tail_word e);
}

abbrev start : State
start = record { reg = λ i. 0; pending = []; sectors = λ n i. n; target = 0; taken = [] }

abbrev sevens : List ℕ
sevens = let seven : ℕ = 7 in replicate 512 seven
