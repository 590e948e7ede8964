-- ===== src/Placement/Tests.antt =====
-- The placement that a ring of one node gives.
use self_healing_distributed.Prelude.{ℕ, ◌∷◌, [], List, String}
use self_healing_distributed.Ring.Changes.{Change, join}

abbrev first_letter : String → List ℕ
first_letter key = 0 ∷ 0 ∷ 0 ∷ 7 ∷ []

abbrev joins : List Change
joins = join (record { id = "a"; addr = "a:80" }) ∷ join (record { id = "b"; addr = "b:80" }) ∷ []
