-- ===== src/Net/Bytes/Tests.antt =====
-- A packet of two words and its checksum.
use nedoos.Prelude.{ℕ, ◌≡◌, refl, List, [], ◌∷◌, some}
use nedoos.Net.Bytes.{checksum}

abbrev plain : List ℕ
plain = 1 ∷ 2 ∷ 0 ∷ 0 ∷ []

checksum_runs : checksum plain ≡ some 65022
unfolding checksum
checksum_runs = refl
