-- ===== src/Tests/Lab.antt =====
-- The theorems on the exercises at work.
use network_camp.Prelude.{ℕ, List, [], ◌∷◌}
use network_camp.Search.Clients.{Clients}

abbrev picture : List ℕ
picture = 1 ∷ 2 ∷ 3 ∷ []
