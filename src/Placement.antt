-- ===== src/Placement.antt =====
-- What the nodes ask of internal/ring/ring.go while they serve a request: the owner of a key, and
-- its replicas for the replication factor of the node. The ring does not change in between.
pub mod Consistent
mod Tests
use self_healing_distributed.Prelude.{◌≡◌, String, Option, some, List, ◌∷◌}
use self_healing_distributed.Ring.{Node}
use self_healing_distributed.Ring.Replication.{ids, IsUnique}

pub record Placement : Type 0 where
  pub owner : String → Option Node
  pub replicas : String → List Node

-- The law of a placement: the replicas of a key are no two alike, and none is the owner.
pub record IsLawful (place : Placement) : Type 0 where
  pub distinct :
      (key : String) (owner : Node)
      → place.owner key ≡ some owner
      → IsUnique (owner.id ∷ ids (place.replicas key))
