-- ===== src/Net/Address/Tests.antt =====
-- The address 10.0.2.15, and the theorem applied to it.
use nedoos.Prelude.{ℕ, List, [], ◌∷◌}

abbrev ten : List ℕ
ten = 49 ∷ 48 ∷ []
